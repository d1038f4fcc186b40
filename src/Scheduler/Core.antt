-- ===== src/Scheduler/Core.antt =====
-- The private methods of packages/kernel/src/scheduler/scheduler.ts that its operations share.
use consisten_cy.Base.{
  ℕ, ◌-◌, ◌==◌, String, ◌||◌, Option, none, some, [], ◌∷◌, ◌++◌, ok, err, Exec, pure, throw, ◌>>=◌,
  ◌>>◌, if◌then◌else◌, leb, count, erase,
}
use consisten_cy.Base.Dict
use consisten_cy.Base.Dict.{Dict}
use consisten_cy.Run.{Run}
use consisten_cy.Agent.{Agent, AgentState, cancelled, running, agent_state_eq, is_terminal}
use consisten_cy.Fault.{Fault, unknown_agent, agent_transition, already_queued}
use consisten_cy.Registry.Agents.{Patch, transition}
use consisten_cy.Scheduler.Data.{
  Scheduler, SchedulerEvent, CancelCause, CancelReason, agent_state_changed, agent_cancelled,
  create_cancel_cause,
}

abbrev pub Action : Type 0 → Type 0
Action A = Exec Scheduler Fault A

-- `new KernelScheduler({maxRunningAgents})`; `none` is its `RangeError`.
unfoldable pub construct : ℕ → Option Scheduler
construct max_running_agents =
    if leb 1 max_running_agents
    then some (record {
      runs = [];
      agents = [];
      ready_queue = [];
      running_count = 0;
      run_cancel_causes = [];
      agent_cancel_causes = [];
      cancel_sequence = 0;
      events = [];
      max_running_agents = max_running_agents;
    })
    else none

abbrev pub emit : SchedulerEvent → Action (Unit {0})
emit e s = (ok tt, record s { events = s.events ++ e ∷ [] })

-- A method of the agent registry, run on the scheduler's registry.
abbrev pub on_agents : {A : Type 0} → Exec (Dict Agent) Fault A → Action A
on_agents m s = let (r, agents) = m s.agents in (r, record s { agents = agents })

abbrev pub on_runs : {A : Type 0} → Exec (Dict Run) Fault A → Action A
on_runs m s = let (r, runs) = m s.runs in (r, record s { runs = runs })

abbrev check_state : AgentState → AgentState → Option Agent → String → Action (Unit {0})
check_state expected to none id = throw (unknown_agent id)
check_state expected to (some agent) id =
    if agent_state_eq agent.state expected then pure tt else throw (agent_transition agent.state to)

unfoldable pub assert_state : String → AgentState → AgentState → Action (Unit {0})
assert_state id expected to s = check_state expected to (Dict.get id s.agents) id s

-- The registry's transition, and the event that reports it.
unfoldable pub change_state : ℕ → String → AgentState → Option Patch → Action Agent
change_state now id to patch s = elim (Dict.get id s.agents) [
  | none ↦ (err (unknown_agent id), s)
  | some before ↦
      (do
        snapshot ← on_agents (transition id to patch)
        emit (agent_state_changed now id before.state to)
        pure snapshot)
        s
]

unfoldable pub enqueue : String → Action (Unit {0})
enqueue id s =
    if count id s.ready_queue == 0
    then (ok tt, record s { ready_queue = s.ready_queue ++ id ∷ [] })
    else (err (already_queued id), s)

unfoldable pub dequeue : String → Action (Unit {0})
dequeue id s = (ok tt, record s { ready_queue = erase id s.ready_queue })

-- `if (state === "RUNNING") this.#runningCount -= 1`.
unfoldable pub leave_running : AgentState → Action (Unit {0})
leave_running state s =
    if agent_state_eq state running
    then (ok tt, record s { running_count = s.running_count - 1 })
    else (ok tt, s)

abbrev pub allocate_cause : CancelReason → ℕ → Option CancelCause → Action CancelCause
allocate_cause reason now cause s =
    let (c, sequence) = create_cancel_cause reason now cause s.cancel_sequence in
    (ok c, record s { cancel_sequence = sequence })

abbrev pub record_agent_cause : String → CancelCause → Action (Unit {0})
record_agent_cause id cause s =
    (ok tt, record s { agent_cancel_causes = Dict.set id cause s.agent_cancel_causes })

-- The cause that is recorded for an agent whose state is final, or else a fresh one.
abbrev pub recorded_cause :
    CancelReason → ℕ → Option CancelCause → Option CancelCause → Action CancelCause
recorded_cause reason now cause (some c) = pure c
recorded_cause reason now cause none = allocate_cause reason now cause

abbrev pub cancel_patch : CancelCause → Option Patch
cancel_patch cause =
    some (record { pending_operation = none; cancel_cause_id = some cause.cancel_id })

abbrev pub cancel_live : ℕ → String → CancelReason → Option CancelCause → Agent → Action CancelCause
cancel_live now id reason given agent = do
  cause ← allocate_cause reason now given
  record_agent_cause id cause
  dequeue id
  _ ← change_state now id cancelled (cancel_patch cause)
  leave_running agent.state
  emit (agent_cancelled now id reason cause.cancel_id)
  pure cause

unfoldable pub cancel_agent_internal :
    ℕ → String → CancelReason → Option CancelCause → Action CancelCause
cancel_agent_internal now id reason given s = elim (Dict.get id s.agents) [
  | none ↦ recorded_cause reason now given (Dict.get id s.agent_cancel_causes) s
  | some agent ↦
      if is_terminal agent.state || agent_state_eq agent.state cancelled
      then recorded_cause reason now given (Dict.get id s.agent_cancel_causes) s
      else cancel_live now id reason given agent s
]
