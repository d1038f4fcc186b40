-- ===== src/Scheduler/Register.antt =====
-- `registerAgent` of packages/kernel/src/scheduler/scheduler.ts keeps the invariant.
use consisten_cy.Base.{
  ℕ, ◌≡◌, inl, inr, refl, String, Option, none, some, [], ◌∷◌, ◌++◌, arith, Bool-cases,
  Option-cases, Result, ok, err, Result-cases, string_dec,
}
use consisten_cy.Base.Dict
use consisten_cy.Base.Dict.{Dict, total}
use consisten_cy.Run.{is_terminal_run}
use consisten_cy.Agent.{Agent, AgentState, RegisterAgentRequest}
use consisten_cy.Fault.{Fault}
use consisten_cy.Registry.Runs.{is_past}
use consisten_cy.Registry.Agents.{register, adopt, new_agent, check_parent}
use consisten_cy.Scheduler.Data.{Scheduler}
use consisten_cy.Scheduler.Agents.{register_agent}
use consisten_cy.Scheduler.Moved.{Inv, running_bit}
use consisten_cy.Scheduler.Reach.{Quiet-Inv, beside}

-- A record is replaced by one with the same id and state, or added in a state that is neither
-- queued, running nor cancelled.
abbrev SameOrNew : Option Agent → Agent → Type 0
SameOrNew none b = b.state ≡ AgentState.new
SameOrNew (some a) b = b.state ≡ a.state

put-Inv :
    (s : Scheduler) (i : String) (b : Agent)
    → Inv s
    → b.id ≡ i
    → SameOrNew (Dict.get i s.agents) b
    → Inv (record s { agents = Dict.set i b s.agents })
put-Inv s i b v key same = record {
  distinct = Dict.set-HasDistinctKeys i b s.agents v.distinct;
  keyed = λ j c h. ground (arith, Dict.get-set i j b s.agents, v.keyed j c);
  queued = λ j. ground (arith, Dict.get-set i j b s.agents, v.queued j);
  counted = ground (arith, Dict.total-set running_bit i b s.agents, v.counted);
  bounded = v.bounded;
  caused = λ j. ground (arith, Dict.get-set i j b s.agents, v.caused j);
}

abbrev with_agents : Scheduler → Dict Agent → Scheduler
with_agents s agents = record s { agents = agents }

adopt-Inv :
    (s : Scheduler) (p : Option String) (id : String)
    → Inv s
    → Inv (with_agents s (adopt p id s.agents))
unfolding adopt
adopt-Inv s none id v = v
adopt-Inv s (some p) id v = elim (Option-cases (Dict.get p s.agents)) [
  | inl e ↦ rw (e, adopt) v
  | inr (a, e) ↦
      rw (e, adopt)
        (put-Inv s p (record a { children = a.children ++ id ∷ [] }) v (v.keyed p a e) (rw e refl))
]

-- Where the records after a registration come from.
pub data Origin (d : Dict Agent) (request : RegisterAgentRequest) (i : String) (b : Agent)
    : Type 0 where
  old :
      (a : Agent)
      → Dict.get i d ≡ some a
      → b.state ≡ a.state
      → b.run_id ≡ a.run_id
      → Origin d request i b
  fresh : b.run_id ≡ request.run_id → Origin d request i b

adopt-origin :
    (d : Dict Agent) (p : Option String) (id i : String) (b : Agent)
    → Dict.get i (adopt p id d) ≡ some b
    → (a : Agent) × (Dict.get i d ≡ some a) × (b.state ≡ a.state) × (b.run_id ≡ a.run_id)
unfolding adopt
adopt-origin d none id i b h = (b, h, refl, refl)
adopt-origin d (some p) id i b h = elim (Option-cases (Dict.get p d)) [
  | inl e ↦ (b, (rw (e, adopt) at h), refl, refl)
  | inr (c, e) ↦
      let h' : Dict.get i (Dict.set p (record c { children = c.children ++ id ∷ [] }) d) ≡ some b =
        rw (e, adopt) at h in
      elim (string_dec p i) [
        | yes same ↦ (
          c,
          ground arith,
          ground (arith, Dict.get-set p i (record c { children = c.children ++ id ∷ [] }) d),
          ground (arith, Dict.get-set p i (record c { children = c.children ++ id ∷ [] }) d),
        )
        | no other ↦ (
          b,
          ground (arith, Dict.get-set p i (record c { children = c.children ++ id ∷ [] }) d),
          refl,
          refl,
        )
      ]
]

-- Adoption changes nothing of an agent but its children.
adopt-keeps :
    (d : Dict Agent) (p : Option String) (id i : String) (a : Agent)
    → Dict.get i d ≡ some a
    → (b : Agent) × (Dict.get i (adopt p id d) ≡ some b) × (b.state ≡ a.state)
unfolding adopt
adopt-keeps d none id i a h = (a, h, refl)
adopt-keeps d (some p) id i a h = elim (Option-cases (Dict.get p d)) [
  | inl e ↦ (a, rw (e, adopt) h, refl)
  | inr (c, e) ↦ elim (string_dec p i) [
    | yes same ↦ (
      record c { children = c.children ++ id ∷ [] },
      rw (e, adopt)
          (ground (arith, Dict.get-set p i (record c { children = c.children ++ id ∷ [] }) d)),
      ground arith,
    )
    | no other ↦ (
      a,
      rw (e, adopt)
          (ground (arith, Dict.get-set p i (record c { children = c.children ++ id ∷ [] }) d)),
      refl,
    )
  ]
]

-- The three ways in which a registration ends.
pub data Registered (now : ℕ) (request : RegisterAgentRequest) (d : Dict Agent)
    : Result Fault Agent × Dict Agent → Type 0 where
  rejected : (e : Fault) → Registered now request d (err e, d)
  entered :
      Dict.get request.id d ≡ none
      → Registered now request d (
        ok (new_agent now request),
        adopt request.parent request.id (Dict.set request.id (new_agent now request) d),
      )

pub register-Registered :
    (now : ℕ) (request : RegisterAgentRequest) (d : Dict Agent)
    → Registered now request d (register now request d)
unfolding register Dict.has
register-Registered now request d = elim (Option-cases (Dict.get request.id d)) [
  | inr (a, e) ↦ rw (e, register) (rejected _)
  | inl e ↦ elim (Result-cases (check_parent request d)) [
    | inr (f, bad) ↦ rw (e, register, bad) (rejected _)
    | inl (x, good) ↦ elim (Bool-cases (is_past request.deadline now)) [
      | inl past ↦ rw (e, register, good, past) (rejected _)
      | inr ahead ↦ rw (e, register, good, ahead) (entered e)
    ]
  ]
]

-- The registration of an agent in the registry, seen from the scheduler.
Registered-Inv :
    (now : ℕ) (request : RegisterAgentRequest) (s : Scheduler) (r : Result Fault Agent × Dict Agent)
    → Inv s
    → Registered now request s.agents r
    → Inv (with_agents s r.1)
Registered-Inv now request s r v (rejected e) = v
Registered-Inv now request s r v (entered e) =
    adopt-Inv (with_agents s (Dict.set request.id (new_agent now request) s.agents)) request.parent
      request.id (put-Inv s request.id (new_agent now request) v refl (rw e refl))

pub Registered-Origin :
    (now : ℕ) (request : RegisterAgentRequest) (d : Dict Agent)
    (r : Result Fault Agent × Dict Agent)
    → Registered now request d r
    → (i : String) (b : Agent) → Dict.get i r.1 ≡ some b
    → Origin d request i b
Registered-Origin now request d r (rejected e) i b h = old b h refl refl
Registered-Origin now request d r (entered e) i b h =
    let (a, ha, st, ru) = adopt-origin _ request.parent request.id i b h in
    elim (string_dec request.id i) [
      | yes same ↦ fresh (ground (arith, Dict.get-set request.id i (new_agent now request) d))
      | no other ↦ old a (ground (arith, Dict.get-set request.id i (new_agent now request) d)) st ru
    ]

pub Registered-keeps :
    (now : ℕ) (request : RegisterAgentRequest) (d : Dict Agent)
    (r : Result Fault Agent × Dict Agent)
    → Registered now request d r
    → (i : String) (a : Agent) → Dict.get i d ≡ some a
    → (b : Agent) × (Dict.get i r.1 ≡ some b) × (b.state ≡ a.state)
Registered-keeps now request d r (rejected e) i a h = (a, h, refl)
Registered-keeps now request d r (entered e) i a h =
    adopt-keeps _ request.parent request.id i a
      (ground (arith, Dict.get-set request.id i (new_agent now request) d))

-- A registered agent enters the registry as new, whether or not the request is accepted the
-- invariant holds after it.
pub register_agent-Inv :
    (now : ℕ) (request : RegisterAgentRequest) (s : Scheduler)
    → Inv s
    → Inv (register_agent now request s).1
unfolding register_agent
register_agent-Inv now request s v = elim (Option-cases (Dict.get request.run_id s.runs)) [
  | inl e ↦ rw (e, register_agent) v
  | inr (run, e) ↦ elim (Bool-cases (is_terminal_run run.state)) [
    | inl t ↦ rw (e, register_agent, t) v
    | inr live ↦ elim (Result-cases (register now request s.agents).0) [
      | inl (a, good) ↦
          rw (e, register_agent, live, good)
            (Quiet-Inv (beside _ _ _ _ _)
              (Registered-Inv now request s _ v (register-Registered now request s.agents)))
      | inr (f, bad) ↦
          rw (e, register_agent, live, bad)
            (Registered-Inv now request s _ v (register-Registered now request s.agents))
    ]
  ]
]
