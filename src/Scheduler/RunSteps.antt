-- ===== src/Scheduler/RunSteps.antt =====
-- What the operations on runs of packages/kernel/src/scheduler/scheduler.ts keep.
use consisten_cy.Base.{
  ℕ, List, ◌≡◌, refl, String, false, arith, Result, ok, err, Bool-cases, Option-cases, inl, inr,
  ◌||◌,
}
use consisten_cy.Base.Dict
use consisten_cy.Base.Dict.{Dict}
use consisten_cy.Run.{
  Run, RunState, CreateRunRequest, run_state_eq, is_terminal_run, can_transition_run, created,
  active, suspended, succeeded, failed,
}
use consisten_cy.Fault.{Fault}
use consisten_cy.Registry.Runs.{create, transition, is_past}
use consisten_cy.Scheduler.Data.{Scheduler, SchedulerEvent}
use consisten_cy.Scheduler.Runs.{register_run, change_run, activate_run, succeed_run, fail_run}
use consisten_cy.Scheduler.Moved.{Inv}
use consisten_cy.Scheduler.Reach.{Quiet-Inv, beside}
use consisten_cy.Scheduler.Settled.{IsSettled}

-- The runs change in a way that cancels none; agents are left alone, and an error changes nothing.
pub record Runs {A : Type 0} (s : Scheduler) (r : Result Fault A × Scheduler) : Type 0 where
  pub valid : Inv s → Inv r.1
  pub settled : IsSettled s → IsSettled r.1
  pub same_agents : r.1.agents ≡ s.agents
  pub atomic : (e : Fault) → r.0 ≡ err e → r.1 ≡ s

same-Runs : {A : Type 0} (s : Scheduler) (e : Fault) → Runs {A = A} s (err e, s)
same-Runs s e = record {
  valid = λ v. v;
  settled = λ h. h;
  same_agents = refl;
  atomic = λ f h. refl;
}

put_run :
    {A : Type 0} (x : A) (s : Scheduler) (id : String) (run : Run) (events : List SchedulerEvent)
    → run_state_eq run.state RunState.cancelled ≡ false
    → Runs s (ok x, record s { runs = Dict.set id run s.runs; events = events })
put_run x s id run events live = record {
  valid = Quiet-Inv (beside s _ _ _ _);
  settled = λ h i a r ha hr c. ground (arith, Dict.get-set id a.run_id run s.runs, h i a r ha);
  same_agents = refl;
  atomic = λ e h. cc;
}

pub register_run-Runs :
    (now : ℕ) (request : CreateRunRequest) (s : Scheduler) → Runs s (register_run now request s)
unfolding register_run create
register_run-Runs now request s = elim (Bool-cases (Dict.has request.id s.runs)) [
  | inl t ↦ rw t (same-Runs s _)
  | inr f ↦ elim (Bool-cases (is_past request.deadline now)) [
    | inl t ↦ rw (f, t) (same-Runs s _)
    | inr ahead ↦ rw (f, ahead) (put_run _ s request.id _ _ refl)
  ]
]

change_run-Runs :
    (now : ℕ) (id : String) (from to : RunState) (s : Scheduler)
    → run_state_eq to RunState.cancelled ≡ false
    → Runs s (change_run now id from to s)
unfolding transition
change_run-Runs now id from to s live = elim (Option-cases (Dict.get id s.runs)) [
  | inl e ↦ rw (e, transition) (same-Runs s _)
  | inr (r, e) ↦ elim (Bool-cases (can_transition_run r.state to)) [
    | inl t ↦ rw (e, transition, t) (put_run _ s id (record r { state = to }) _ live)
    | inr f ↦ rw (e, transition, f) (same-Runs s _)
  ]
]

pub activate_run-Runs : (now : ℕ) (id : String) (s : Scheduler) → Runs s (activate_run now id s)
unfolding activate_run
activate_run-Runs now id s = elim (Option-cases (Dict.get id s.runs)) [
  | inl e ↦ rw (e, activate_run) (same-Runs s _)
  | inr (r, e) ↦
      elim (Bool-cases (run_state_eq r.state created || run_state_eq r.state suspended)) [
        | inl t ↦ rw (e, activate_run, t) (change_run-Runs now id r.state active s refl)
        | inr f ↦ rw (e, activate_run, f) (same-Runs s _)
      ]
]

pub succeed_run-Runs : (now : ℕ) (id : String) (s : Scheduler) → Runs s (succeed_run now id s)
unfolding succeed_run
succeed_run-Runs now id s = elim (Option-cases (Dict.get id s.runs)) [
  | inl e ↦ rw (e, succeed_run) (same-Runs s _)
  | inr (r, e) ↦ elim (Bool-cases (is_terminal_run r.state)) [
    | inl t ↦ rw (e, succeed_run, t) (same-Runs s _)
    | inr f ↦ rw (e, succeed_run, f) (change_run-Runs now id r.state succeeded s refl)
  ]
]

pub fail_run-Runs : (now : ℕ) (id : String) (s : Scheduler) → Runs s (fail_run now id s)
unfolding fail_run
fail_run-Runs now id s = elim (Option-cases (Dict.get id s.runs)) [
  | inl e ↦ rw (e, fail_run) (same-Runs s _)
  | inr (r, e) ↦ elim (Bool-cases (is_terminal_run r.state)) [
    | inl t ↦ rw (e, fail_run, t) (same-Runs s _)
    | inr f ↦ rw (e, fail_run, f) (change_run-Runs now id r.state failed s refl)
  ]
]
