-- ===== src/Scheduler/Runs.antt =====
-- The operations on runs of packages/kernel/src/scheduler/scheduler.ts.
use consisten_cy.Base.{
  ℕ, String, Option, none, some, List, [], ◌∷◌, ok, pure, throw, expect, ◌>>=◌, ◌>>◌, if◌then◌else◌,
  ite, string_dec, ◌||◌,
}
use consisten_cy.Base.Dict
use consisten_cy.Base.Dict.{Dict}
use consisten_cy.Run.{
  Run, RunState, CreateRunRequest, created, active, suspended, succeeded, failed, cancelled,
  run_state_eq, is_terminal_run,
}
use consisten_cy.Agent.{Agent, is_terminal}
use consisten_cy.Fault.{unknown_run, run_transition, no_cause}
use consisten_cy.Registry.Runs.{create, transition}
use consisten_cy.Scheduler.Data.{
  CancelCause, explicit, run_cancelled, run_registered, run_state_changed, run_cancelled_event,
}
use consisten_cy.Scheduler.Core.{Action, emit, on_runs, allocate_cause, cancel_agent_internal}

unfoldable pub register_run : ℕ → CreateRunRequest → Action Run
register_run now request = do
  run ← on_runs (create now request)
  emit (run_registered now run)
  pure run

-- The common end of the three operations below.
abbrev pub change_run : ℕ → String → RunState → RunState → Action Run
change_run now id from to = do
  after ← on_runs (transition id to)
  emit (run_state_changed now id from after.state)
  pure after

unfoldable pub activate_run : ℕ → String → Action Run
activate_run now id s = elim (Dict.get id s.runs) [
  | none ↦ throw (unknown_run id) s
  | some before ↦
      if run_state_eq before.state created || run_state_eq before.state suspended
      then change_run now id before.state active s
      else throw (run_transition before.state active) s
]

unfoldable pub succeed_run : ℕ → String → Action Run
succeed_run now id s = elim (Dict.get id s.runs) [
  | none ↦ throw (unknown_run id) s
  | some before ↦
      if is_terminal_run before.state
      then throw (run_transition before.state succeeded) s
      else change_run now id before.state succeeded s
]

unfoldable pub fail_run : ℕ → String → Action Run
fail_run now id s = elim (Dict.get id s.runs) [
  | none ↦ throw (unknown_run id) s
  | some before ↦
      if is_terminal_run before.state
      then throw (run_transition before.state failed) s
      else change_run now id before.state failed s
]

-- The body of the loop of `cancelRun`, over a snapshot of the agents.
unfoldable pub cancel_member : ℕ → String → CancelCause → Agent → Action (Unit {0})
cancel_member now run_id cause agent s =
    ite (string_dec agent.run_id run_id)
      (if is_terminal agent.state
        then pure tt s
        else (do _ ← cancel_agent_internal now agent.id run_cancelled (some cause); pure tt) s)
      (pure tt s)

unfoldable pub cancel_members : ℕ → String → CancelCause → List Agent → Action (Unit {0})
cancel_members now run_id cause [] = pure tt
cancel_members now run_id cause (agent ∷ rest) = do
  cancel_member now run_id cause agent
  cancel_members now run_id cause rest

abbrev pub record_run_cause : String → CancelCause → Action (Unit {0})
record_run_cause id cause s =
    (ok tt, record s { run_cancel_causes = Dict.set id cause s.run_cancel_causes })

abbrev pub all_members : ℕ → String → CancelCause → Action (Unit {0})
all_members now id cause s = cancel_members now id cause (Dict.values s.agents) s

abbrev pub cancel_found : ℕ → String → Option CancelCause → Run → Action CancelCause
cancel_found now id given run = do
  cause ← allocate_cause explicit now given
  _ ← on_runs (transition id cancelled)
  record_run_cause id cause
  all_members now id cause
  emit (run_state_changed now id run.state cancelled)
  emit (run_cancelled_event now id cause.cancel_id)
  pure cause

-- A cancelled run answers with the cause that is recorded for it, which the source takes as present.
unfoldable pub cancel_run : ℕ → String → Option CancelCause → Action CancelCause
cancel_run now id given s = elim (Dict.get id s.runs) [
  | none ↦ throw (unknown_run id) s
  | some run ↦
      if run_state_eq run.state cancelled
      then expect (Dict.get id s.run_cancel_causes) (no_cause id) s
      else if run_state_eq run.state succeeded
      then throw (run_transition run.state cancelled) s
      else if run_state_eq run.state failed
      then throw (run_transition run.state cancelled) s
      else cancel_found now id given run s
]
