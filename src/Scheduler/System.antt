-- ===== src/Scheduler/System.antt =====
-- The invariants of the scheduler under any sequence of calls.
use consisten_cy.Base.{
  ℕ, ◌≡◌, ◌≢◌, refl, subst, String, true, Option, some, [], arith, Result, err, Bool-cases,
  Option-cases, inl, inr, string_dec, leb, count,
}
use consisten_cy.Base.Dict
use consisten_cy.Base.Dict.{Dict}
use consisten_cy.Run.{Run, RunState, run_state_eq, is_terminal_run}
use consisten_cy.Agent.{Agent, is_terminal}
use consisten_cy.Fault.{Fault}
use consisten_cy.Scheduler.Data.{Scheduler, CancelCause, explicit, create_cancel_cause}
use consisten_cy.Scheduler.Core.{construct}
use consisten_cy.Scheduler.Runs.{cancel_run}
use consisten_cy.Scheduler.Admit.{admit}
use consisten_cy.Scheduler.Moved.{Inv}
use consisten_cy.Scheduler.Reach.{Reach-Inv, here, move}
use consisten_cy.Scheduler.Settled.{IsSettled, Within, Within-refl, Within-trans, Within-IsSettled}
use consisten_cy.Scheduler.CancelRun.{CancelsRun, closed, cancel_run_lem}
use consisten_cy.Scheduler.Admission.{Chooses, full, nobody, starts, admit-Admits}

pub record System (s : Scheduler) : Type 0 where
  pub valid : Inv s
  pub settled : IsSettled s

abbrev fresh : ℕ → Scheduler
fresh n = record {
  runs = [];
  agents = [];
  ready_queue = [];
  running_count = 0;
  run_cancel_causes = [];
  agent_cancel_causes = [];
  cancel_sequence = 0;
  events = [];
  max_running_agents = n;
}

empty : (n : ℕ) → System (fresh n)
unfolding count Dict.get Dict.has Dict.total
empty n = record {
  valid = record {
    distinct = tt;
    keyed = λ i a h. cc;
    queued = λ i. refl;
    counted = refl;
    bounded = omega arith;
    caused = λ i. refl;
  };
  settled = λ i a r ha hr c. cc;
}

pub construct-System : (n : ℕ) (s : Scheduler) → construct n ≡ some s → System s
unfolding construct
construct-System n s h = elim (Bool-cases (leb 1 n)) [
  | inr f ↦ absurd (ground arith)
  | inl t ↦ subst System (ground arith) (empty n)
]

pub Within-System : {s t : Scheduler} → System s → Within s t → System t
Within-System v w = record {
  valid = Reach-Inv v.valid w.chain;
  settled = Within-IsSettled w v.settled;
}

-- A closed agent keeps its run; it has ended if the run is the cancelled one.
closed_cases :
    (id : String) (c : CancelCause) (a b : Agent)
    → b ≡ closed id c a
    → (b.run_id ≡ a.run_id) × (a.run_id ≡ id → is_terminal b.state ≡ true) × (a.run_id ≢ id → b ≡ a)
closed_cases id c a b e = elim (string_dec a.run_id id) [
  | yes same ↦ (ground arith, (λ m. ground arith), λ o. absurd (o same))
  | no other ↦ (ground arith, (λ m. absurd (other m)), λ o. ground arith)
]

pub CancelsRun-IsSettled :
    (id : String) (run : Run) (c : CancelCause) (s : Scheduler)
    (r : Result Fault CancelCause × Scheduler)
    → CancelsRun id run c s r
    → IsSettled s
    → IsSettled r.1
CancelsRun-IsSettled id run c s r k h i b q hb hq e = elim (Option-cases (Dict.get i s.agents)) [
  | inl gone ↦ absurd (ground (arith, k.agents i))
  | inr (a, ha) ↦
      let (same, member, other) = closed_cases id c a b (ground (arith, k.agents i)) in
      elim (string_dec a.run_id id) [
        | yes m ↦ member m
        | no o ↦
            let kept : b ≡ a = other o in
            let hq' : Dict.get b.run_id
                  (Dict.set id (record run { state = RunState.cancelled }) s.runs)
                ≡ some q =
              subst (λ d. Dict.get b.run_id d ≡ some q) k.runs hq in
            ground (
              arith,
              Dict.get-set id b.run_id (record run { state = RunState.cancelled }) s.runs,
              h i a q ha,
            )
      ]
]

-- `cancelRun` cancels a run that has not ended; else agents and runs are as before.
pub data Cancels (id : String) (c : CancelCause) (s : Scheduler)
    : Result Fault CancelCause × Scheduler → Type 0 where
  apart :
      {r : Result Fault CancelCause × Scheduler}
      → Within s r.1
      → ((e : Fault) → r.0 ≡ err e → r.1 ≡ s)
      → Cancels id c s r
  whole :
      {r : Result Fault CancelCause × Scheduler} (run : Run)
      → CancelsRun id run c s r
      → Cancels id c s r

pub cancel_run_cases :
    (now : ℕ) (id : String) (given : Option CancelCause) (s : Scheduler)
    → Inv s
    → Cancels id
        (create_cancel_cause explicit now given s.cancel_sequence).0
        s
        (cancel_run now id given s)
unfolding cancel_run
cancel_run_cases now id given s v = elim (Option-cases (Dict.get id s.runs)) [
  | inl e ↦ rw (e, cancel_run) (apart (Within-refl s) (λ e h. refl))
  | inr (q, e) ↦ elim (Bool-cases (is_terminal_run q.state)) [
    | inr live ↦ whole q (cancel_run_lem now id given q s v e live)
    | inl final ↦ elim (Bool-cases (run_state_eq q.state RunState.cancelled)) [
      | inl t ↦ elim (Option-cases (Dict.get id s.run_cancel_causes)) [
        | inl missing ↦ rw (e, cancel_run, t, missing) (apart (Within-refl s) (λ f h. refl))
        | inr (c, recorded) ↦ rw (e, cancel_run, t, recorded) (apart (Within-refl s) (λ f h. cc))
      ]
      | inr f ↦ elim (Bool-cases (run_state_eq q.state RunState.succeeded)) [
        | inl t ↦ rw (e, cancel_run, f, t) (apart (Within-refl s) (λ e h. refl))
        | inr g ↦
            let failed : run_state_eq q.state RunState.failed ≡ true = ground arith in
            rw (e, cancel_run, f, g, failed) (apart (Within-refl s) (λ e h. refl))
      ]
    ]
  ]
]

-- The result of `admit` is within the scheduler that it was given.
Chooses-Within :
    {t : Scheduler} {r : Result Fault (Option Agent) × Scheduler} → Chooses t r → Within t r.1
Chooses-Within (full h) = Within-refl _
Chooses-Within (nobody h all) = Within-refl _
Chooses-Within (starts id p a run free w ra ar m) = record {
  chain = move here m;
  runs = m.same_runs;
}

pub admit-Within : (now : ℕ) (s : Scheduler) → Inv s → Within s (admit now s).1
admit-Within now s v =
    let k = admit-Admits now s v in
    Within-trans (record { chain = k.expired.chain; runs = k.expired.runs })
      (Chooses-Within k.chosen)
