-- ===== src/Scheduler/CancelRun.antt =====
-- What `cancelRun` of packages/kernel/src/scheduler/scheduler.ts does to the agents.
use consisten_cy.Base.{
  ℕ, ◌≡◌, refl, String, true, false, Option, none, some, [], ◌∷◌, arith, ◌∙◌, Bool-cases, inl, inr,
  Result, ok, ite, if_pos, if_neg, string_dec, if◌then◌else◌,
}
use consisten_cy.Base.Dict
use consisten_cy.Base.Dict.{Dict}
use consisten_cy.Agent.{Agent, is_terminal, cancelled}
use consisten_cy.Registry.Agents.{moved}
use consisten_cy.Scheduler.Data.{
  Scheduler, CancelCause, run_cancelled, explicit, create_cancel_cause,
}
use consisten_cy.Scheduler.Core.{cancel_patch}
use consisten_cy.Run.{Run, RunState, is_terminal_run, can_transition_run, run_state_eq}
use consisten_cy.Registry.Runs.{transition}
use consisten_cy.Fault.{Fault}
use mathlib.Core.Option
use consisten_cy.Scheduler.Runs.{cancel_member, cancel_members, cancel_run, cancel_found}
use consisten_cy.Scheduler.Moved.{Inv}
use consisten_cy.Scheduler.Shapes.{cancels}
use consisten_cy.Scheduler.Steps.{after_cancel, cancel_agent_internal_lem}
use consisten_cy.Scheduler.Reach.{Reach, here, move, Reach-trans, Reach-Inv, Quiet-Inv, beside}

-- An agent of the run that may still go on is cancelled, with the one cause; others are kept.
abbrev pub closed : String → CancelCause → Agent → Agent
closed run_id cause agent =
    ite (string_dec agent.run_id run_id)
      (if is_terminal agent.state then agent else moved cancelled (cancel_patch cause) agent) agent

module _ (now : ℕ) (run_id : String) (cause : CancelCause) where
  -- One round of the loop.
  record Round (b : Agent) (s s' : Scheduler) : Type 0 where
    returns : cancel_member now run_id cause b s ≡ (ok tt, s')
    chain : Reach s s'
    agents :
        (i : String)
        → Dict.get i s'.agents
          ≡ ite (string_dec b.id i) (some (closed run_id cause b)) (Dict.get i s.agents)
    runs : s'.runs ≡ s.runs
    run_causes : s'.run_cancel_causes ≡ s.run_cancel_causes

  round :
      (b : Agent) (s : Scheduler)
      → Inv s
      → Dict.get b.id s.agents ≡ some b
      → (s' : Scheduler) × Round b s s'
  unfolding cancel_member
  round b s v found = elim (string_dec b.run_id run_id) [
    | no other ↦ (
      s,
      record {
        returns = rw (if_neg _ other);
        chain = here;
        agents = λ i. ground (arith, found);
        runs = refl;
        run_causes = refl;
      },
    )
    | yes member ↦ elim (Bool-cases (is_terminal b.state)) [
      | inl final ↦ (
        s,
        record {
          returns = rw (if_pos _ member, final);
          chain = here;
          agents = λ i. ground (arith, found);
          runs = refl;
          run_causes = refl;
        },
      )
      | inr live ↦ (
        after_cancel now b.id run_cancelled b cause s.cancel_sequence s,
        record {
          returns = rw (
            if_pos _ member,
            live,
            cancel_agent_internal_lem now b.id run_cancelled (some cause) b s found live,
          );
          chain = move here (cancels v b.id b found cause s.cancel_sequence _ live);
          agents = λ i.
              ground (arith, Dict.get-set b.id i (moved cancelled (cancel_patch cause) b) s.agents);
          runs = refl;
          run_causes = refl;
        },
      )
    ]
  ]

  -- The loop over the entries of a part `m` of the registry.
  record Loop (m : Dict Agent) (s s' : Scheduler) : Type 0 where
    returns : cancel_members now run_id cause (Dict.values m) s ≡ (ok tt, s')
    chain : Reach s s'
    agents :
        (i : String)
        → Dict.get i s'.agents ≡ elim (Dict.get i m) [
          | none ↦ Dict.get i s.agents
          | some b ↦ some (closed run_id cause b)
        ]
    runs : s'.runs ≡ s.runs
    run_causes : s'.run_cancel_causes ≡ s.run_cancel_causes

  abbrev IsPartOf : Dict Agent → Dict Agent → Type 0
  IsPartOf m d = (j : String) (b : Agent) → Dict.get j m ≡ some b → Dict.get j d ≡ some b

  -- After the round of its first entry, the rest is still part of the registry.
  rest-IsPartOf :
      (j : String) (b : Agent) (r : Dict Agent) (s s' : Scheduler)
      → Dict.HasDistinctKeys ((j, b) ∷ r)
      → IsPartOf ((j, b) ∷ r) s.agents
      → b.id ≡ j
      → Round b s s'
      → IsPartOf r s'.agents
  unfolding Dict.get
  rest-IsPartOf j b r s s' d part key one k c h = ground (arith, one.agents k, part k c, d.0)

  loop :
      (m : Dict Agent) (s : Scheduler)
      → Inv s
      → Dict.HasDistinctKeys m
      → IsPartOf m s.agents
      → (s' : Scheduler) × Loop m s s'
  unfolding cancel_members Dict.get Dict.values
  loop [] s v d part = (
    s,
    record { returns = refl; chain = here; agents = λ i. refl; runs = refl; run_causes = refl },
  )
  loop ((j, b) ∷ r) s v d part =
      let found : Dict.get j s.agents ≡ some b = part j b (ground arith) in
      let key : b.id ≡ j = v.keyed j b found in
      let (t, one) = round b s v (ground arith) in
      let (s', more) =
        loop r t (Reach-Inv v one.chain) d.1 (rest-IsPartOf j b r s t d part key one) in
      (
        s',
        record {
          returns = rw one.returns more.returns;
          chain = Reach-trans one.chain more.chain;
          agents = λ i. ground (arith, one.agents i, more.agents i, d.0);
          runs = more.runs ∙ one.runs;
          run_causes = more.run_causes ∙ one.run_causes;
        },
      )

-- What the whole operation does.
pub record CancelsRun (id : String) (run : Run) (cause : CancelCause) (s : Scheduler)
    (r : Result Fault CancelCause × Scheduler) : Type 0 where
  pub returned : r.0 ≡ ok cause
  pub agents :
      (i : String) → Dict.get i r.1.agents ≡ Option.map (closed id cause) (Dict.get i s.agents)
  pub cancelled_run : Dict.get id r.1.runs ≡ some (record run { state = RunState.cancelled })
  pub runs : r.1.runs ≡ Dict.set id (record run { state = RunState.cancelled }) s.runs
  pub recorded : Dict.get id r.1.run_cancel_causes ≡ some cause
  pub valid : Inv r.1

transition_lem :
    (id : String) (run : Run) (to : RunState) (runs : Dict Run)
    → Dict.get id runs ≡ some run
    → can_transition_run run.state to ≡ true
    → transition id to runs
      ≡ (ok (record run { state = to }), Dict.set id (record run { state = to }) runs)
unfolding transition
transition_lem id run to runs found legal = rw (found, transition, legal)

-- The scheduler as the loop finds it.
abbrev marked : String → Run → CancelCause → ℕ → Scheduler → Scheduler
marked id run c n s = record s {
  cancel_sequence = n;
  runs = Dict.set id (record run { state = RunState.cancelled }) s.runs;
  run_cancel_causes = Dict.set id c s.run_cancel_causes;
}

cancel_found-CancelsRun :
    (now : ℕ) (id : String) (given : Option CancelCause) (run : Run) (s : Scheduler)
    → Inv s
    → Dict.get id s.runs ≡ some run
    → is_terminal_run run.state ≡ false
    → CancelsRun id run
        (create_cancel_cause explicit now given s.cancel_sequence).0
        s
        (cancel_found now id given run s)
cancel_found-CancelsRun now id given run s v found live =
    let c = create_cancel_cause explicit now given s.cancel_sequence in
    let t = marked id run c.0 c.1 s in
    let w : Inv t = Quiet-Inv (beside s _ _ _ _) v in
    let (s', l) = loop now id c.0 s.agents t w v.distinct (λ j b h. h) in
    rw (transition_lem id run RunState.cancelled s.runs found (ground arith), l.returns)
      (record {
        returned = refl;
        agents = λ i. ground (arith, l.agents i);
        cancelled_run =
            ground (
              arith,
              l.runs,
              Dict.get-set id id (record run { state = RunState.cancelled }) s.runs,
            );
        runs = l.runs;
        recorded = ground (arith, l.run_causes, Dict.get-set id id c.0 s.run_cancel_causes);
        valid = Quiet-Inv (beside s' _ _ _ _) (Reach-Inv w l.chain);
      })

-- A run that has not ended is cancelled with one cause, new or given: each of its agents that has
-- not ended is cancelled with that cause's id and all other agents are left alone, the run is
-- marked, the cause is recorded, and the invariant holds after it.
pub cancel_run_lem :
    (now : ℕ) (id : String) (given : Option CancelCause) (run : Run) (s : Scheduler)
    → Inv s
    → Dict.get id s.runs ≡ some run
    → is_terminal_run run.state ≡ false
    → CancelsRun id run
        (create_cancel_cause explicit now given s.cancel_sequence).0
        s
        (cancel_run now id given s)
unfolding cancel_run
cancel_run_lem now id given run s v found live =
    let a : run_state_eq run.state RunState.cancelled ≡ false = ground arith in
    let b : run_state_eq run.state RunState.succeeded ≡ false = ground arith in
    let c : run_state_eq run.state RunState.failed ≡ false = ground arith in
    rw (found, cancel_run, a, b, c) (cancel_found-CancelsRun now id given run s v found live)
