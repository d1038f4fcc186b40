-- ===== src/Scheduler/Deadline.antt =====
-- The first pass of `admit` in packages/kernel/src/scheduler/scheduler.ts: expired agents go.
use consisten_cy.Base.{
  ℕ, All, ◌≡◌, ◌⊎◌, inl, inr, refl, ◌∙◌, String, true, false, none, some, List, [], ◌∷◌, arith,
  Bool-cases, Option-cases, string_dec, ok, count, erase, erase-absent, subst,
}
use consisten_cy.Base.Dict
use consisten_cy.Base.Dict.{Dict}
use consisten_cy.Run.{Run}
use consisten_cy.Agent.{Agent, ready, cancelled, agent_state_eq, is_terminal}
use consisten_cy.Registry.Agents.{moved}
use consisten_cy.Scheduler.Data.{Scheduler, CancelCause, deadline, create_cancel_cause}
use consisten_cy.Scheduler.Core.{cancel_patch, dequeue}
use consisten_cy.Scheduler.Admit.{
  effective_deadline, is_expired, ready_agent, active_run, expire_one, expire_all,
}
use consisten_cy.Scheduler.Moved.{Inv}
use consisten_cy.Scheduler.Shapes.{cancels}
use consisten_cy.Scheduler.Steps.{after_cancel, cancel_agent_internal_lem}
use consisten_cy.Scheduler.Reach.{Reach, here, move, quiet, Reach-trans, Reach-Inv}

-- An id that is ready to run in an active run has a deadline ahead, if any.
abbrev pub IsFresh : ℕ → Scheduler → String → Type 0
IsFresh now s id =
    (a : Agent) (run : Run)
    → ready_agent id s.agents ≡ some a
    → active_run a.run_id s.runs ≡ some run
    → is_expired now (effective_deadline a run) ≡ false

-- The agent was ready in an active run with its deadline, its own or else that of the run, behind it,
-- and is cancelled with a cause for that.
pub record IsExpelled (now : ℕ) (s t : Scheduler) (id : String) : Type 0 where
  pub agent : Agent
  pub run : Run
  pub cause : CancelCause
  pub was_ready : ready_agent id s.agents ≡ some agent
  pub was_active : active_run agent.run_id s.runs ≡ some run
  pub was_expired : is_expired now (effective_deadline agent run) ≡ true
  pub reason : cause.reason ≡ deadline
  pub after : Dict.get id t.agents ≡ some (moved cancelled (cancel_patch cause) agent)

-- An agent is left as it was, or it had expired and is cancelled for that.
abbrev pub Shrinks : ℕ → Scheduler → Scheduler → Type 0
Shrinks now s t = (i : String) → IsExpelled now s t i ⊎ (Dict.get i t.agents ≡ Dict.get i s.agents)

pub expelled-ready :
    (now : ℕ) (s t : Scheduler) (i : String) → IsExpelled now s t i → ready_agent i t.agents ≡ none
expelled-ready now s t i x = ground (arith, x.after)

Shrinks-trans :
    (now : ℕ) (s t u : Scheduler)
    → t.runs ≡ s.runs
    → Shrinks now s t
    → Shrinks now t u
    → Shrinks now s u
Shrinks-trans now s t u same h k i = elim (k i) [
  | inr kept ↦ elim (h i) [
    | inr first ↦ inr (kept ∙ first)
    | inl x ↦ inl (record {
      agent = x.agent;
      run = x.run;
      cause = x.cause;
      was_ready = x.was_ready;
      was_active = x.was_active;
      was_expired = x.was_expired;
      reason = x.reason;
      after = kept ∙ x.after;
    })
  ]
  | inl y ↦ elim (h i) [
    | inr first ↦ inl (record {
      agent = y.agent;
      run = y.run;
      cause = y.cause;
      was_ready = ground (arith, y.was_ready, first);
      was_active = subst (λ d. active_run y.agent.run_id d ≡ some y.run) same y.was_active;
      was_expired = y.was_expired;
      reason = y.reason;
      after = y.after;
    })
    | inl x ↦ absurd (ground (arith, y.was_ready, expelled-ready now s t i x))
  ]
]

Shrinks-IsFresh :
    (now : ℕ) (s t : Scheduler) (id : String)
    → t.runs ≡ s.runs
    → Shrinks now s t
    → IsFresh now s id
    → IsFresh now t id
Shrinks-IsFresh now s t id same h fresh a run ra ar = elim (h id) [
  | inl x ↦ absurd (ground (arith, ra, expelled-ready now s t id x))
  | inr kept ↦ fresh a run (ground arith) (subst (λ d. active_run a.run_id d ≡ some run) same ar)
]

record Round (now : ℕ) (id : String) (s s' : Scheduler) : Type 0 where
  returns : expire_one now id s ≡ (ok tt, s')
  chain : Reach s s'
  runs : s'.runs ≡ s.runs
  shrinks : Shrinks now s s'
  fresh : IsFresh now s' id

not_ready-count :
    (id : String) (s : Scheduler)
    → Inv s
    → ready_agent id s.agents ≡ none
    → count id s.ready_queue ≡ 0
not_ready-count id s v h = ground (arith, v.queued id)

pub ready_agent-get :
    (id : String) (d : Dict Agent) (a : Agent)
    → ready_agent id d ≡ some a
    → (Dict.get id d ≡ some a) × (agent_state_eq a.state ready ≡ true)
ready_agent-get id d a h = ground arith

expelled :
    (now : ℕ) (id : String) (s : Scheduler)
    → Inv s
    → (a : Agent) (run : Run) → ready_agent id s.agents ≡ some a
    → active_run a.run_id s.runs ≡ some run
    → is_expired now (effective_deadline a run) ≡ true
    → (s' : Scheduler) × Round now id s s'
unfolding expire_one
expelled now id s v a run ra ar past =
    let c : CancelCause × ℕ = create_cancel_cause deadline now none s.cancel_sequence in
    let (found, queued) = ready_agent-get id s.agents a ra in
    let live : is_terminal a.state ≡ false = ground arith in
    (
      after_cancel now id deadline a c.0 c.1 s,
      record {
        returns = rw (
          ra,
          expire_one,
          ar,
          past,
          cancel_agent_internal_lem now id deadline none a s found live,
        );
        chain = move here (cancels v id a found c.0 c.1 _ live);
        runs = refl;
        shrinks = λ i. elim (string_dec id i) [
          | yes same ↦ inl (record {
            agent = a;
            run = run;
            cause = c.0;
            was_ready = subst (λ x. ready_agent x s.agents ≡ some a) same ra;
            was_active = ar;
            was_expired = past;
            reason = refl;
            after =
                ground
                  (arith, same, Dict.get-set id i (moved cancelled (cancel_patch c.0) a) s.agents);
          })
          | no other ↦
              inr
                (ground (arith, Dict.get-set id i (moved cancelled (cancel_patch c.0) a) s.agents))
        ];
        fresh = λ b run' rb br.
            ground (arith, Dict.get-set id id (moved cancelled (cancel_patch c.0) a) s.agents);
      },
    )

round : (now : ℕ) (id : String) (s : Scheduler) → Inv s → (s' : Scheduler) × Round now id s s'
unfolding expire_one dequeue
round now id s v = elim (Option-cases (ready_agent id s.agents)) [
  | inl gone ↦ (
    record s { ready_queue = erase id s.ready_queue },
    record {
      returns = rw (gone, expire_one);
      chain = quiet here (record {
        same_agents = refl;
        same_queue = erase-absent id s.ready_queue (not_ready-count id s v gone);
        same_count = refl;
        same_causes = refl;
        same_limit = refl;
      });
      runs = refl;
      shrinks = λ i. inr refl;
      fresh = λ a run ra ar. cc;
    },
  )
  | inr (a, ra) ↦ elim (Option-cases (active_run a.run_id s.runs)) [
    | inl off ↦ (
      s,
      record {
        returns = rw (ra, expire_one, off);
        chain = here;
        runs = refl;
        shrinks = λ i. inr refl;
        fresh = λ b run rb br. ground arith;
      },
    )
    | inr (run, ar) ↦ elim (Bool-cases (is_expired now (effective_deadline a run))) [
      | inr ahead ↦ (
        s,
        record {
          returns = rw (ra, expire_one, ar, ahead);
          chain = here;
          runs = refl;
          shrinks = λ i. inr refl;
          fresh = λ b run' rb br. ground arith;
        },
      )
      | inl past ↦ expelled now id s v a run ra ar past
    ]
  ]
]

-- The pass over a list of ids.
pub record Expired (now : ℕ) (ids : List String) (s s' : Scheduler) : Type 0 where
  pub returns : expire_all now ids s ≡ (ok tt, s')
  pub chain : Reach s s'
  pub runs : s'.runs ≡ s.runs
  pub shrinks : Shrinks now s s'
  pub fresh : All (IsFresh now s') ids

pub expire_all-Expired :
    (now : ℕ) (ids : List String) (s : Scheduler) → Inv s → (s' : Scheduler) × Expired now ids s s'
unfolding expire_all
expire_all-Expired now [] s v =
    (s, record { returns = refl; chain = here; runs = refl; shrinks = λ i. inr refl; fresh = tt })
expire_all-Expired now (id ∷ ids) s v =
    let (t, one) = round now id s v in
    let (u, more) = expire_all-Expired now ids t (Reach-Inv v one.chain) in
    (
      u,
      record {
        returns = rw one.returns more.returns;
        chain = Reach-trans one.chain more.chain;
        runs = more.runs ∙ one.runs;
        shrinks = Shrinks-trans now s t u one.runs one.shrinks more.shrinks;
        fresh = (Shrinks-IsFresh now t u id more.runs more.shrinks one.fresh, more.fresh);
      },
    )
