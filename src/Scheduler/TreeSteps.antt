-- ===== src/Scheduler/TreeSteps.antt =====
-- What the walk of `cancelAgentTree` keeps, and that its fuel is enough.
use consisten_cy.Base.{
  ℕ, zero, suc, ◌+◌, ◌≤◌, ◌<◌, ◌==◌, ◌≡◌, ◌≢◌, refl, sym, subst, String, false, Option, some, List,
  [], ◌∷◌, ◌++◌, arith, Result, ok, err, Bool-cases, Option-cases, inl, inr, string_dec, length,
  length-append, count, count-append, ltb, if◌then◌else◌, count-snoc, All, All-map, continue, pure,
}
use consisten_cy.Base.Dict
use consisten_cy.Base.Dict.{Dict}
use consisten_cy.Agent.{Agent, is_terminal, cancelled, agent_state_eq}
use consisten_cy.Fault.{Fault, out_of_fuel}
use consisten_cy.Scheduler.Data.{Scheduler, CancelCause, explicit, create_cancel_cause}
use consisten_cy.Scheduler.Tree.{
  discover, visit, reason_for, walk, all_children, tree_fuel, cancel_agent_tree,
  max_cancel_tree_depth,
}
use consisten_cy.Scheduler.Moved.{Inv}
use consisten_cy.Scheduler.Shapes.{cancels}
use consisten_cy.Scheduler.Reach.{Reach-Inv, beside, quiet, here, move}
use consisten_cy.Scheduler.Settled.{Reach-origin, Within, Within-refl, Within-trans}
use consisten_cy.Scheduler.Steps.{after_cancel, cancel_agent_internal_lem}

-- A visit returns, within the scheduler that it was given.
record Visited (s : Scheduler) (r : Result Fault (Unit {0}) × Scheduler) : Type 0 where
  after : Scheduler
  returns : r ≡ (ok tt, after)
  within : Within s after

visit_lem :
    (now : ℕ) (root : String) (c : CancelCause) (id : String) (a : Agent) (s : Scheduler)
    → Inv s
    → Dict.get id s.agents ≡ some a
    → Visited s (visit now root c id a s)
unfolding visit
visit_lem now root c id a s v e = elim (Bool-cases (is_terminal a.state)) [
  | inl t ↦ record { after = s; returns = rw t (ground arith); within = Within-refl s }
  | inr live ↦
      let not_cancelled : agent_state_eq a.state cancelled ≡ false = ground arith in
      record {
        after = after_cancel now id (reason_for root id) a c s.cancel_sequence s;
        returns = rw (
          not_cancelled,
          live,
          cancel_agent_internal_lem now id (reason_for root id) (some c) a s e live,
        );
        within = record {
          chain = move here (cancels v id a e c s.cancel_sequence _ live);
          runs = refl;
        };
      }
]

-- How many entries of `u` were not visited.
unseen : List String → List String → ℕ
unseen [] visited = 0
unseen (x ∷ u) visited = (if count x visited == 0 then 1 else 0) + unseen u visited

unseen-le-length : (u visited : List String) → unseen u visited ≤ length u
unfolding unseen
unseen-le-length [] visited = omega arith
unseen-le-length (x ∷ u) visited = ground (arith, unseen-le-length u visited)

unseen-snoc_le :
    (u visited : List String) (c : String) → unseen u (visited ++ c ∷ []) ≤ unseen u visited
unfolding unseen
unseen-snoc_le [] visited c = omega arith
unseen-snoc_le (x ∷ u) visited c =
    ground (arith, unseen-snoc_le u visited c, count-append x visited (c ∷ []))

unseen-snoc_lt :
    (u visited : List String) (c : String)
    → count c visited ≡ 0
    → count c u ≢ 0
    → unseen u (visited ++ c ∷ []) < unseen u visited
unfolding unseen count
unseen-snoc_lt [] visited c h k = absurd (k refl)
unseen-snoc_lt (x ∷ u) visited c h k = elim (string_dec x c) [
  | yes same ↦ ground (arith, count-snoc x c visited, unseen-snoc_le u visited c)
  | no other ↦ ground (arith, count-snoc x c visited, unseen-snoc_lt u visited c h)
]

abbrev IsIn : List String → String → Type 0
IsIn u c = count c u ≢ 0

discover-unseen :
    (u : List String) (depth : ℕ) (visited children : List String)
    → All (IsIn u) children
    → let found = discover depth visited children in
      length found.0 + unseen u found.1 ≤ unseen u visited
unfolding discover
discover-unseen u depth visited [] h = omega arith
discover-unseen u depth visited (c ∷ rest) h = ground (
  arith,
  discover-unseen u depth (visited ++ c ∷ []) rest h.1,
  discover-unseen u depth visited rest h.1,
  unseen-snoc_lt u visited c,
  h.0,
)

-- Every child of an agent stands in `u`; no transition changes that.
abbrev Knows : List String → Scheduler → Type 0
Knows u s = (i : String) (a : Agent) → Dict.get i s.agents ≡ some a → All (IsIn u) a.children

Within-Knows : {s t : Scheduler} (u : List String) → Within s t → Knows u s → Knows u t
Within-Knows u w k i b h =
    let (a, e, same, kids) = Reach-origin i b w.chain h in subst (All (IsIn u)) (sym kids) (k i a e)

record Walked (s : Scheduler) (r : Result Fault (Unit {0}) × Scheduler) : Type 0 where
  within : Within s r.1
  finished : r.0 ≢ err out_of_fuel

-- With fuel for the work list and for what was not visited, the walk ends by itself.
walk-Walked :
    (fuel now : ℕ) (root : String) (c : CancelCause) (u visited : List String)
    (queue : List (String × ℕ)) (s : Scheduler)
    → Inv s
    → Knows u s
    → length queue + unseen u visited ≤ fuel
    → Walked s (walk fuel now root c visited queue s)
unfolding walk
walk-Walked fuel now root c u visited [] s v k h = record {
  within = Within-refl s;
  finished = λ e. cc;
}
walk-Walked zero now root c u visited ((id, depth) ∷ queue) s v k h = absurd (omega arith)
walk-Walked (suc fuel) now root c u visited ((id, depth) ∷ queue) s v k h =
    elim (Bool-cases (ltb max_cancel_tree_depth depth)) [
      | inl deep ↦ rw deep (record { within = Within-refl s; finished = λ e. cc })
      | inr shallow ↦ elim (Option-cases (Dict.get id s.agents)) [
        | inl gone ↦
            rw (shallow, gone, walk)
              (walk-Walked fuel now root c u visited queue s v k (omega arith))
        | inr (a, e) ↦
            let one = visit_lem now root c id a s v e in
            let found = discover (depth + 1) visited a.children in
            let rest =
              walk-Walked fuel now root c u found.1 (queue ++ found.0) one.after
                (Reach-Inv v one.within.chain) (Within-Knows u one.within k)
                (omega (
                  arith,
                  discover-unseen u (depth + 1) visited a.children (k id a e),
                  length-append {0} queue found.0,
                )) in
            rw (shallow, e, walk, one.returns)
              (record { within = Within-trans one.within rest.within; finished = rest.finished })
      ]
    ]

All-IsIn : (u xs : List String) → ((c : String) → count c xs ≢ 0 → count c u ≢ 0) → All (IsIn u) xs
unfolding count
All-IsIn u [] h = tt
All-IsIn u (x ∷ xs) h = (h x (ground arith), All-IsIn u xs (λ c k. h c (ground arith)))

-- The ids that the fuel counts hold every child.
children-Knows :
    (d : Dict Agent) (i : String) (a : Agent)
    → Dict.get i d ≡ some a
    → All (IsIn (all_children (Dict.values d))) a.children
unfolding Dict.get Dict.values all_children
children-Knows [] i a h = cc
children-Knows ((j, b) ∷ d) i a h = elim (string_dec j i) [
  | yes same ↦
      let e : b ≡ a = ground arith in
      subst (λ x. All (IsIn (b.children ++ all_children (Dict.values d))) x.children) e
        (All-IsIn _ b.children
          (λ c k. ground (arith, count-append c b.children (all_children (Dict.values d)))))
  | no other ↦
      All-map
        (λ c k. λ z. k (ground (arith, count-append c b.children (all_children (Dict.values d)))))
        a.children (children-Knows d i a (ground arith))
]

-- The last step of the operation, after the walk.
answer :
    (c : CancelCause) (s : Scheduler) (r : Result Fault (Unit {0}) × Scheduler)
    → Walked s r
    → Within s (continue {B = CancelCause} r.0 (λ _. pure c) r.1).1
      × ((continue {B = CancelCause} r.0 (λ _. pure c) r.1).0 ≢ err out_of_fuel)
answer c s (ok x, t) w = (w.within, λ e. cc)
answer c s (err f, t) w = (w.within, λ e. w.finished (cc))

-- `cancelAgentTree` always ends by itself: its loop makes no more rounds than there are entries in
-- the children of all agents, and one. What it leaves is within the scheduler that it was given.
pub cancel_agent_tree-Walked :
    (now : ℕ) (id : String) (given : Option CancelCause) (s : Scheduler)
    → Inv s
    → Within s (cancel_agent_tree now id given s).1
      × ((cancel_agent_tree now id given s).0 ≢ err out_of_fuel)
unfolding cancel_agent_tree
cancel_agent_tree-Walked now id given s v = elim (Option-cases (Dict.get id s.agents)) [
  | inl e ↦ rw (e, cancel_agent_tree) (Within-refl s, λ z. cc)
  | inr (a, e) ↦
      let c = create_cancel_cause explicit now given s.cancel_sequence in
      let t : Scheduler = record s { cancel_sequence = c.1 } in
      let start : Within s t = record { chain = quiet here (beside s _ _ _ _); runs = refl } in
      let u = all_children (Dict.values s.agents) in
      let (w, f) = answer c.0 t (walk (tree_fuel s) now id c.0 (id ∷ []) ((id, 0) ∷ []) t) (
        walk-Walked (tree_fuel s) now id c.0 u (id ∷ []) ((id, 0) ∷ []) t (Reach-Inv v start.chain)
          (children-Knows s.agents) (omega (arith, unseen-le-length u (id ∷ [])))) in
      rw (e, cancel_agent_tree) (Within-trans start w, f)
]
