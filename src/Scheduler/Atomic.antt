-- ===== src/Scheduler/Atomic.antt =====
-- Errors of packages/kernel/src/scheduler/scheduler.ts: a call that throws, and what it leaves.
use consisten_cy.Base.{
  ℕ, ◌≡◌, continue, pure, ◌>>◌, refl, String, Bool, true, false, Option, some, Result, ok, err,
  Bool-cases, Option-cases, inl, inr,
}
use consisten_cy.Base.Dict
use consisten_cy.Run.{is_terminal_run}
use consisten_cy.Agent.{Agent, RegisterAgentRequest}
use consisten_cy.Fault.{Fault}
use consisten_cy.Registry.Agents.{register}
use consisten_cy.Scheduler.Data.{Scheduler, CancelCause, agent_registered}
use consisten_cy.Scheduler.Core.{emit}
use consisten_cy.Scheduler.Agents.{register_agent}
use consisten_cy.Scheduler.Calls.{
  Call, registers_run, activates_run, succeeds_run, fails_run, cancels_run, registers_agent,
  readies, admits, waits, wakes, suspends, resumes, succeeds, fails, cancels_agent, cancels_tree,
  outcome, step, run,
}
use consisten_cy.Scheduler.Shapes.{Did, refused, idle, stepped}
use consisten_cy.Scheduler.Admission.{Chooses, full, nobody, starts, admit-Admits}
use consisten_cy.Base.Dict.{Dict}
use consisten_cy.Scheduler.Register.{register-Registered, Registered, rejected, entered}
use consisten_cy.Scheduler.RunSteps.{
  register_run-Runs, activate_run-Runs, succeed_run-Runs, fail_run-Runs,
}
use consisten_cy.Scheduler.Steps.{
  make_ready-Did, wait-Did, wake-Did, suspend_agent-Did, resume_agent-Did, succeed_agent-Did,
  fail_agent-Did, cancel_agent-Did,
}
use consisten_cy.Scheduler.System.{System, Cancels, apart, whole, cancel_run_cases}

abbrev pub is_tree : Call → Bool
is_tree (cancels_tree id cause) = true
is_tree _ = false

abbrev IsAtomic : {A : Type 0} → Scheduler → Result Fault A × Scheduler → Type 0
IsAtomic s r = (e : Fault) → r.0 ≡ err e → r.1 ≡ s

Did-IsAtomic :
    {A : Type 0} {s : Scheduler} {r : Result Fault A × Scheduler} → Did s r → IsAtomic s r
Did-IsAtomic (refused f) e h = refl
Did-IsAtomic (idle x) e h = cc
Did-IsAtomic (stepped x i a to p m) e h = cc

Cancels-IsAtomic :
    {id : String} {c : CancelCause} {s : Scheduler} {r : Result Fault CancelCause × Scheduler}
    → Cancels id c s r
    → IsAtomic s r
Cancels-IsAtomic (apart w still) e h = still e h
Cancels-IsAtomic (whole run k) e h = cc (k.returned)

Chooses-IsAtomic :
    {t s : Scheduler} {r : Result Fault (Option Agent) × Scheduler} → Chooses t r → IsAtomic s r
Chooses-IsAtomic (full h) e k = cc
Chooses-IsAtomic (nobody h all) e k = cc
Chooses-IsAtomic (starts id p a run free w ra ar m) e k = cc

entry-IsAtomic :
    (now : ℕ) (request : RegisterAgentRequest) (s : Scheduler) (r : Result Fault Agent × Dict Agent)
    → Registered now request s.agents r
    → IsAtomic s (
        continue r.0
          (λ agent. emit (agent_registered now agent) >> pure agent)
          (record s { agents = r.1 }))
entry-IsAtomic now request s r (rejected f) e h = refl
entry-IsAtomic now request s r (entered absent) e h = cc

register_agent-IsAtomic :
    (now : ℕ) (request : RegisterAgentRequest) (s : Scheduler)
    → IsAtomic s (register_agent now request s)
unfolding register_agent
register_agent-IsAtomic now request s = elim (Option-cases (Dict.get request.run_id s.runs)) [
  | inl e ↦ rw (e, register_agent) (λ f h. refl)
  | inr (q, e) ↦ elim (Bool-cases (is_terminal_run q.state)) [
    | inl t ↦ rw (e, register_agent, t) (λ f h. refl)
    | inr live ↦
        rw (e, register_agent, live)
          (entry-IsAtomic now request s (register now request s.agents)
            (register-Registered now request s.agents))
  ]
]

outcome_atomic :
    {A : Type 0} (s : Scheduler) (r : Result Fault A × Scheduler) (e : Fault)
    → IsAtomic s r
    → (outcome r).0 ≡ some e
    → (outcome r).1 ≡ s
outcome_atomic s (ok a, t) e k h = cc
outcome_atomic s (err f, t) e k h = k f refl

-- A call that throws, whichever but the cancellation of a subtree, has changed nothing.
pub step_atomic :
    (now : ℕ) (c : Call) (s : Scheduler) (e : Fault)
    → System s
    → is_tree c ≡ false
    → (step now c s).0 ≡ some e
    → (step now c s).1 ≡ s
unfolding step
step_atomic now (registers_run request) s e v k =
    outcome_atomic s _ e ((register_run-Runs now request s).atomic)
step_atomic now (activates_run id) s e v k =
    outcome_atomic s _ e ((activate_run-Runs now id s).atomic)
step_atomic now (succeeds_run id) s e v k =
    outcome_atomic s _ e ((succeed_run-Runs now id s).atomic)
step_atomic now (fails_run id) s e v k = outcome_atomic s _ e ((fail_run-Runs now id s).atomic)
step_atomic now (cancels_run id cause) s e v k =
    outcome_atomic s _ e (Cancels-IsAtomic (cancel_run_cases now id cause s v.valid))
step_atomic now (registers_agent request) s e v k =
    outcome_atomic s _ e (register_agent-IsAtomic now request s)
step_atomic now (readies id) s e v k =
    outcome_atomic s _ e (Did-IsAtomic (make_ready-Did now id s v.valid))
step_atomic now admits s e v k =
    outcome_atomic s _ e (Chooses-IsAtomic ((admit-Admits now s v.valid).chosen))
step_atomic now (waits id d) s e v k =
    outcome_atomic s _ e (Did-IsAtomic (wait-Did now id d s v.valid))
step_atomic now (wakes id) s e v k = outcome_atomic s _ e (Did-IsAtomic (wake-Did now id s v.valid))
step_atomic now (suspends id) s e v k =
    outcome_atomic s _ e (Did-IsAtomic (suspend_agent-Did now id s v.valid))
step_atomic now (resumes id) s e v k =
    outcome_atomic s _ e (Did-IsAtomic (resume_agent-Did now id s v.valid))
step_atomic now (succeeds id) s e v k =
    outcome_atomic s _ e (Did-IsAtomic (succeed_agent-Did now id s v.valid))
step_atomic now (fails id) s e v k =
    outcome_atomic s _ e (Did-IsAtomic (fail_agent-Did now id s v.valid))
step_atomic now (cancels_agent id cause) s e v k =
    outcome_atomic s _ e (Did-IsAtomic (cancel_agent-Did now id cause s v.valid))
step_atomic now (cancels_tree id cause) s e v k = cc
