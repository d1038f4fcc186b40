-- ===== src/Scheduler/Calls.antt =====
-- The scheduler under any sequence of calls.
use consisten_cy.Base.{ℕ, String, Option, none, some, List, [], ◌∷◌, Result, ok, err}
use consisten_cy.Run.{CreateRunRequest}
use consisten_cy.Agent.{RegisterAgentRequest}
use consisten_cy.Fault.{Fault}
use consisten_cy.Scheduler.Data.{Scheduler, CancelCause, WaitDetails}
use consisten_cy.Scheduler.Runs.{register_run, activate_run, succeed_run, fail_run, cancel_run}
use consisten_cy.Scheduler.Agents.{
  register_agent, make_ready, wait, wake, suspend_agent, resume_agent, succeed_agent, fail_agent,
  cancel_agent,
}
use consisten_cy.Scheduler.Admit.{admit}
use consisten_cy.Scheduler.Tree.{cancel_agent_tree}

pub data Call : Type 0 where
  registers_run : CreateRunRequest → Call
  activates_run succeeds_run fails_run : String → Call
  cancels_run : String → Option CancelCause → Call
  registers_agent : RegisterAgentRequest → Call
  readies : String → Call
  admits : Call
  waits : String → WaitDetails → Call
  wakes suspends resumes succeeds fails : String → Call
  cancels_agent cancels_tree : String → Option CancelCause → Call

-- What a call leaves behind, and what it throws if it does.
abbrev pub outcome : {A : Type 0} → Result Fault A × Scheduler → Option Fault × Scheduler
outcome (ok a, s) = (none, s)
outcome (err e, s) = (some e, s)

unfoldable pub step : ℕ → Call → Scheduler → Option Fault × Scheduler
step now (registers_run request) s = outcome (register_run now request s)
step now (activates_run id) s = outcome (activate_run now id s)
step now (succeeds_run id) s = outcome (succeed_run now id s)
step now (fails_run id) s = outcome (fail_run now id s)
step now (cancels_run id cause) s = outcome (cancel_run now id cause s)
step now (registers_agent request) s = outcome (register_agent now request s)
step now (readies id) s = outcome (make_ready now id s)
step now admits s = outcome (admit now s)
step now (waits id details) s = outcome (wait now id details s)
step now (wakes id) s = outcome (wake now id s)
step now (suspends id) s = outcome (suspend_agent now id s)
step now (resumes id) s = outcome (resume_agent now id s)
step now (succeeds id) s = outcome (succeed_agent now id s)
step now (fails id) s = outcome (fail_agent now id s)
step now (cancels_agent id cause) s = outcome (cancel_agent now id cause s)
step now (cancels_tree id cause) s = outcome (cancel_agent_tree now id cause s)

unfoldable pub run : List (ℕ × Call) → Scheduler → Scheduler
run [] s = s
run ((now, call) ∷ calls) s = run calls (step now call s).1
