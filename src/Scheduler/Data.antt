-- ===== src/Scheduler/Data.antt =====
-- Types of the scheduler: packages/kernel/src/scheduler/types.ts and cancellation.ts, and the
-- fields of `KernelScheduler` in scheduler.ts.
use consisten_cy.Base.{ℕ, suc, String, Option, none, some, List}
use consisten_cy.Base.Dict.{Dict}
use consisten_cy.Run.{Run, RunState}
use consisten_cy.Agent.{
  Agent, AgentState, PendingOperation, wait_llm, wait_tool, wait_io, wait_agent, wait_human,
}

pub data CancelReason : Type 0 where
  explicit run_cancelled parent_cancelled deadline shutdown : CancelReason

-- `cancel_id` is the allocation number; the text is `cancel_` and the number in hexadecimal.
pub record CancelCause : Type 0 where
  pub cancel_id : ℕ
  pub reason : CancelReason
  pub cancelled_at : ℕ

-- What an agent waits on when it yields.
pub data WaitDetails : Type 0 where
  llm : Option String → WaitDetails
  tool io agent human : String → WaitDetails

abbrev pub wait_state_by_kind : WaitDetails → AgentState
wait_state_by_kind (WaitDetails.llm p) = wait_llm
wait_state_by_kind (WaitDetails.tool t) = wait_tool
wait_state_by_kind (WaitDetails.io d) = wait_io
wait_state_by_kind (WaitDetails.agent a) = wait_agent
wait_state_by_kind (WaitDetails.human p) = wait_human

abbrev pub pending_operation_for : WaitDetails → ℕ → PendingOperation
pending_operation_for (WaitDetails.llm p) started_at = PendingOperation.llm started_at p
pending_operation_for (WaitDetails.tool t) started_at = PendingOperation.tool started_at t
pending_operation_for (WaitDetails.io d) started_at = PendingOperation.io started_at d
pending_operation_for (WaitDetails.agent a) started_at = PendingOperation.agent started_at a
pending_operation_for (WaitDetails.human p) started_at = PendingOperation.human started_at p

pub data SchedulerEvent : Type 0 where
  run_registered : ℕ → Run → SchedulerEvent
  run_state_changed : ℕ → String → RunState → RunState → SchedulerEvent
  run_cancelled_event : ℕ → String → ℕ → SchedulerEvent
  agent_registered : ℕ → Agent → SchedulerEvent
  agent_state_changed : ℕ → String → AgentState → AgentState → SchedulerEvent
  agent_admitted : ℕ → String → String → SchedulerEvent
  agent_cancelled : ℕ → String → CancelReason → ℕ → SchedulerEvent

-- `cancel_sequence` is the process's allocation counter; `events` is what the bus was given, in
-- order; `running_count` is lowered only for a running agent, so it is never 0 there.
pub record Scheduler : Type 0 where
  pub runs : Dict Run
  pub agents : Dict Agent
  pub ready_queue : List String
  pub running_count : ℕ
  pub run_cancel_causes : Dict CancelCause
  pub agent_cancel_causes : Dict CancelCause
  pub cancel_sequence : ℕ
  pub events : List SchedulerEvent
  pub max_running_agents : ℕ

-- The allocation, or the reuse, of a cause: the cause and the counter after it.
abbrev pub create_cancel_cause : CancelReason → ℕ → Option CancelCause → ℕ → CancelCause × ℕ
create_cancel_cause reason now none sequence =
    (record { cancel_id = suc sequence; reason = reason; cancelled_at = now }, suc sequence)
create_cancel_cause reason now (some cause) sequence = (cause, sequence)
