-- ===== src/Context/Calls.antt =====
-- The manager of packages/kernel/src/context/manager.ts under any sequence of calls, and what every
-- call keeps.
use consisten_cy.Base.{
  ℕ, suc, ◌+◌, ◌≤◌, ◌≡◌, ◌≢◌, refl, sym, ◌∙◌, subst, ap, String, Bool, true, false, not, Option,
  none, some, List, [], ◌∷◌, arith, Result, ok, err, Exec, ◌>>◌, ◌⊎◌, inl, inr, Result-cases,
  Bool-cases, Option-cases, ite, string_dec, All,
}
use consisten_cy.Context.Data.{Residency, CreatePageSpec, ContextManager, ContextFault}
use consisten_cy.Context.Operations.{
  Action, create_page, create_image, fork, attach, detach, set_residency, evict, page_in,
  image_snapshot,
}

-- Ids that a call may draw come before those that it is given.
pub data Call : Type 0 where
  creates_page : String → CreatePageSpec → Call
  creates_image : String → Option String → Call
  forks : String → String → Option String → Call
  attaches : String → String → Residency → Call
  detaches evicts pages_in : String → String → Call
  sets : String → String → Residency → Call

module _ (hash_text : String → String) where
  unfoldable pub step : Call → ContextManager → ContextManager
  step (creates_page drawn spec) m = (create_page hash_text drawn spec m).1
  step (creates_image drawn given) m = (create_image drawn given m).1
  step (forks parent drawn given) m = (fork parent drawn given m).1
  step (attaches image page residency) m = (attach image page residency m).1
  step (detaches image page) m = (detach image page m).1
  step (evicts image page) m = (evict image page m).1
  step (pages_in image page) m = (page_in image page m).1
  step (sets image page residency) m = (set_residency image page residency m).1

  unfoldable pub run : List Call → ContextManager → ContextManager
  run [] m = m
  run (call ∷ calls) m = run calls (step call m)

-- The snapshot that a change returns leaves the state alone.
pub snapshot_keeps :
    (change : Action (Unit {0})) (id : String) (m : ContextManager)
    → ((change >> image_snapshot id) m).1 ≡ (change m).1
unfolding image_snapshot
snapshot_keeps change id m = go (change m)
  where
    go :
        (r : Result ContextFault (Unit {0}) × ContextManager)
        → (consisten_cy.Base.continue r.0 (λ _. image_snapshot id) r.1).1 ≡ r.1
    go (ok x, m') = refl
    go (err e, m') = refl
