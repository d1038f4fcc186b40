-- ===== src/Scheduler/Tree.antt =====
-- `cancelAgentTree` of packages/kernel/src/scheduler/scheduler.ts: the cancellation of a subtree.
use consisten_cy.Base.{
  ℕ, zero, suc, ◌==◌, ◌+◌, String, ◌||◌, Option, none, some, List, [], ◌∷◌, ◌++◌, length, pure,
  throw, ◌>>=◌, ◌>>◌, if◌then◌else◌, ite, ltb, count, string_dec,
}
use consisten_cy.Base.Dict
use consisten_cy.Base.Dict.{Dict}
use consisten_cy.Agent.{Agent, cancelled, agent_state_eq, is_terminal}
use consisten_cy.Fault.{unknown_agent, subtree_too_deep, out_of_fuel}
use consisten_cy.Scheduler.Data.{Scheduler, CancelCause, CancelReason, explicit, parent_cancelled}
use consisten_cy.Scheduler.Core.{Action, allocate_cause, cancel_agent_internal}

abbrev pub max_cancel_tree_depth : ℕ
max_cancel_tree_depth = 1000

-- The loop over `snapshot.children`: the ids that were not visited, in order, at the given depth,
-- and the ids visited after it.
unfoldable pub discover : ℕ → List String → List String → List (String × ℕ) × List String
discover depth visited [] = ([], visited)
discover depth visited (child ∷ rest) =
    let seen = discover depth visited rest in
    let new = discover depth (visited ++ child ∷ []) rest in
    if count child visited == 0 then ((child, depth) ∷ new.0, new.1) else seen

abbrev pub reason_for : String → String → CancelReason
reason_for root id = ite (string_dec id root) explicit parent_cancelled

-- The visit of one agent that may still run.
unfoldable pub visit : ℕ → String → CancelCause → String → Agent → Action (Unit {0})
visit now root cause id snapshot s =
    if agent_state_eq snapshot.state cancelled || is_terminal snapshot.state
    then pure tt s
    else (do _ ← cancel_agent_internal now id (reason_for root id) (some cause); pure tt) s

-- The `while` loop over the work list, on fuel.
unfoldable pub walk :
    ℕ → ℕ → String → CancelCause → List String → List (String × ℕ) → Action (Unit {0})
walk fuel now root cause visited [] s = pure tt s
walk zero now root cause visited ((id, depth) ∷ queue) s = throw out_of_fuel s
walk (suc fuel) now root cause visited ((id, depth) ∷ queue) s =
    if ltb max_cancel_tree_depth depth
    then throw subtree_too_deep s
    else elim (Dict.get id s.agents) [
      | none ↦ walk fuel now root cause visited queue s
      | some snapshot ↦
          (do
            visit now root cause id snapshot
            let found = discover (depth + 1) visited snapshot.children
            walk fuel now root cause found.1 (queue ++ found.0))
            s
    ]

-- Every id that stands as somebody's child.
unfoldable pub all_children : List Agent → List String
all_children [] = []
all_children (agent ∷ rest) = agent.children ++ all_children rest

-- A round takes one entry off the work list, and an entry is the root or a child seen once.
abbrev pub tree_fuel : Scheduler → ℕ
tree_fuel s = suc (length (all_children (Dict.values s.agents)))

unfoldable pub cancel_agent_tree : ℕ → String → Option CancelCause → Action CancelCause
cancel_agent_tree now id given s = elim (Dict.get id s.agents) [
  | none ↦ throw (unknown_agent id) s
  | some agent ↦
      (do
        cause ← allocate_cause explicit now given
        walk (tree_fuel s) now id cause (id ∷ []) ((id, 0) ∷ [])
        pure cause)
        s
]
