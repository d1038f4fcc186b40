-- ===== src/Scheduler/Agents.antt =====
-- The operations on agents of packages/kernel/src/scheduler/scheduler.ts.
use consisten_cy.Base.{
  ℕ, String, Option, none, some, List, ◌∷◌, pure, throw, expect, ◌>>=◌, ◌>>◌, if◌then◌else◌,
  includes,
}
use consisten_cy.Base.Dict
use consisten_cy.Run.{is_terminal_run}
use consisten_cy.Agent.{
  Agent, AgentState, RegisterAgentRequest, new, ready, running, suspended, succeeded, failed,
  cancelled, agent_state_eq, is_terminal, is_waiting, wait_agent_states,
}
use consisten_cy.Fault.{unknown_run, unknown_agent, terminal_run, agent_transition, no_cause}
use consisten_cy.Registry.Agents.{Patch, register}
use consisten_cy.Scheduler.Data.{
  CancelCause, WaitDetails, wait_state_by_kind, pending_operation_for, agent_registered, explicit,
}
use consisten_cy.Scheduler.Core.{
  Action, emit, on_agents, assert_state, change_state, enqueue, dequeue, leave_running,
  cancel_agent_internal,
}

-- `{ pendingOperation: undefined }`.
abbrev pub no_pending : Option Patch
no_pending = some (record { pending_operation = none; cancel_cause_id = none })

unfoldable pub register_agent : ℕ → RegisterAgentRequest → Action Agent
register_agent now request s = elim (Dict.get request.run_id s.runs) [
  | none ↦ throw (unknown_run request.run_id) s
  | some run ↦
      if is_terminal_run run.state
      then throw (terminal_run run.state) s
      else (do
        agent ← on_agents (register now request)
        emit (agent_registered now agent)
        pure agent)
          s
]

-- The way back into the queue: the transition to READY, then the end of the queue.
abbrev pub requeue : ℕ → String → Option Patch → Action Agent
requeue now id patch = do snapshot ← change_state now id ready patch; enqueue id; pure snapshot

unfoldable pub make_ready : ℕ → String → Action Agent
make_ready now id = do assert_state id new ready; requeue now id none

abbrev pub wait_patch : ℕ → WaitDetails → Option Patch
wait_patch now details = some (record {
  pending_operation = some (pending_operation_for details now);
  cancel_cause_id = none;
})

-- The way out of the running agents.
abbrev pub retire : ℕ → String → AgentState → Option Patch → Action Agent
retire now id to patch = do
  snapshot ← change_state now id to patch
  leave_running running
  pure snapshot

unfoldable pub wait : ℕ → String → WaitDetails → Action Agent
wait now id details = do
  assert_state id running (wait_state_by_kind details)
  retire now id (wait_state_by_kind details) (wait_patch now details)

abbrev wake_found : ℕ → String → Agent → Action Agent
wake_found now id agent =
    if is_waiting agent.state
    then requeue now id no_pending
    else throw (agent_transition agent.state ready)

unfoldable pub wake : ℕ → String → Action Agent
wake now id s = elim (Dict.get id s.agents) [
  | none ↦ throw (unknown_agent id) s
  | some agent ↦ wake_found now id agent s
]

abbrev pub suspendable : List AgentState
suspendable = ready ∷ running ∷ wait_agent_states

-- The way out of the queue and of the running agents.
abbrev pub withdraw : ℕ → String → AgentState → Agent → Action Agent
withdraw now id to agent = do
  dequeue id
  snapshot ← change_state now id to no_pending
  leave_running agent.state
  pure snapshot

abbrev suspend_found : ℕ → String → Agent → Action Agent
suspend_found now id agent =
    if includes agent_state_eq agent.state suspendable
    then withdraw now id suspended agent
    else throw (agent_transition agent.state suspended)

unfoldable pub suspend_agent : ℕ → String → Action Agent
suspend_agent now id s = elim (Dict.get id s.agents) [
  | none ↦ throw (unknown_agent id) s
  | some agent ↦ suspend_found now id agent s
]

unfoldable pub resume_agent : ℕ → String → Action Agent
resume_agent now id = do assert_state id suspended ready; requeue now id none

unfoldable pub succeed_agent : ℕ → String → Action Agent
succeed_agent now id = do assert_state id running succeeded; retire now id succeeded none

abbrev fail_found : ℕ → String → Agent → Action Agent
fail_found now id agent =
    if agent_state_eq agent.state failed
    then pure agent
    else if is_terminal agent.state
    then throw (agent_transition agent.state failed)
    else withdraw now id failed agent

unfoldable pub fail_agent : ℕ → String → Action Agent
fail_agent now id s = elim (Dict.get id s.agents) [
  | none ↦ throw (unknown_agent id) s
  | some agent ↦ fail_found now id agent s
]

abbrev cancel_found : ℕ → String → Option CancelCause → Agent → Action CancelCause
cancel_found now id given agent s =
    if agent_state_eq agent.state cancelled
    then expect (Dict.get id s.agent_cancel_causes) (no_cause id) s
    else if agent_state_eq agent.state succeeded
    then throw (agent_transition agent.state cancelled) s
    else if agent_state_eq agent.state failed
    then throw (agent_transition agent.state cancelled) s
    else cancel_agent_internal now id explicit given s

unfoldable pub cancel_agent : ℕ → String → Option CancelCause → Action CancelCause
cancel_agent now id given s = elim (Dict.get id s.agents) [
  | none ↦ throw (unknown_agent id) s
  | some agent ↦ cancel_found now id given agent s
]
