-- ===== src/Context/Tables.antt =====
-- No two images share a table, and a write reaches one image alone: packages/kernel/src/context/image.ts.
use consisten_cy.Base.{
  ◌+◌, ◌<◌, ◌≡◌, ◌≢◌, refl, String, false, Option, some, List, [], ◌∷◌, arith, All, Bool-cases,
  Option-cases, inl, inr,
}
use consisten_cy.Base.Dict
use consisten_cy.Base.Dict.{Dict}
use consisten_cy.Context.Data.{Residency}
use consisten_cy.Context.Operations.{given_or}
use consisten_cy.Context.Images.{
  StoredImage, ImageRegistry, new_map, add, rewritten, create, forked, fork_image, attach_ref,
  detach_ref, set_residency_ref, RegistryCall, creates, forks, attaches, sets, detaches,
  registry_step, registry_run, empty_registry,
}

-- No two images share a table, and their tables were made.
pub record Separate (r : ImageRegistry) : Type 0 where
  pub made : (k : String) (i : StoredImage) → Dict.get k r.images ≡ some i → i.refs < r.made
  pub apart :
      (k j : String) (i i' : StoredImage)
      → Dict.get k r.images ≡ some i
      → Dict.get j r.images ≡ some i'
      → k ≢ j
      → i.refs ≢ i'.refs

-- The call writes to no image of this id.
abbrev pub IsAside : String → RegistryCall → Type 0
IsAside id (creates drawn given) = Unit
IsAside id (forks parent_id drawn given) = Unit
IsAside id (attaches image_id page_id residency) = image_id ≢ id
IsAside id (sets image_id page_id residency) = image_id ≢ id
IsAside id (detaches image_id page_id) = image_id ≢ id

-- The image stands under the key, with this table.
abbrev pub Stands : String → StoredImage → Dict Residency → ImageRegistry → Type 0
Stands k i table r = (Dict.get k r.images ≡ some i) × (r.tables i.refs ≡ table)

added-Separate :
    (id : String) (image : StoredImage) (table : Dict Residency) (r : ImageRegistry)
    → image.refs ≡ r.made
    → Separate r
    → Separate (add id image (new_map table r))
added-Separate id image table r e s = record {
  made = λ k i h. ground (arith, Dict.get-set id k image r.images, s.made k i);
  apart = λ k j i i' h h' d. ground (
    arith,
    Dict.get-set id k image r.images,
    Dict.get-set id j image r.images,
    s.made k i,
    s.made j i',
    s.apart k j i i',
  );
}

rewritten-Separate :
    (id : String) (image : StoredImage) (table : Dict Residency) (r : ImageRegistry)
    → Dict.get id r.images ≡ some image
    → Separate r
    → Separate (rewritten id image table r)
rewritten-Separate id image table r e s = record {
  made = λ k i h. ground (
    arith,
    Dict.get-set id k (record image { generation = image.generation + 1 }) r.images,
    s.made k i,
    s.made id image e,
  );
  apart = λ k j i i' h h' d. ground (
    arith,
    Dict.get-set id k (record image { generation = image.generation + 1 }) r.images,
    Dict.get-set id j (record image { generation = image.generation + 1 }) r.images,
    s.apart k j i i',
    s.apart id j image i',
    s.apart k id i image,
  );
}

pub added-Stands :
    (id k : String) (image i : StoredImage) (entries table : Dict Residency) (r : ImageRegistry)
    → Dict.has id r.images ≡ false
    → Separate r
    → Stands k i table r
    → Stands k i table (add id image (new_map entries r))
unfolding Dict.has
added-Stands id k image i entries table r f s (h, t) =
    (ground (arith, Dict.get-set id k image r.images), ground (arith, s.made k i h))

rewritten-Stands :
    (id k : String) (image i : StoredImage) (entries table : Dict Residency) (r : ImageRegistry)
    → Dict.get id r.images ≡ some image
    → id ≢ k
    → Separate r
    → Stands k i table r
    → Stands k i table (rewritten id image entries r)
rewritten-Stands id k image i entries table r e d s (h, t) = (
  ground (arith, Dict.get-set id k (record image { generation = image.generation + 1 }) r.images),
  ground (arith, s.apart id k image i e h d),
)

-- What a call does: nothing, a new image with a new table, or a write to an image that it names.
pub data Moves (aside : String → Type 0) (r : ImageRegistry) : ImageRegistry → Type 0 where
  unmoved : Moves aside r r
  adds :
      (id : String) (image : StoredImage) (entries : Dict Residency)
      → Dict.has id r.images ≡ false
      → image.refs ≡ r.made
      → Moves aside r (add id image (new_map entries r))
  writes :
      (id : String) (image : StoredImage) (entries : Dict Residency)
      → Dict.get id r.images ≡ some image
      → ((k : String) → aside k → id ≢ k)
      → Moves aside r (rewritten id image entries r)

module _ (r : ImageRegistry) where
  create-Moves :
      (drawn : String) (given : Option String) (aside : String → Type 0)
      → Moves aside r (create drawn given r).1
  unfolding create
  create-Moves drawn given aside = elim (Bool-cases (Dict.has (given_or given drawn) r.images)) [
    | inl t ↦ rw t unmoved
    | inr f ↦ rw f (adds (given_or given drawn) _ [] f refl)
  ]

  pub fork_image-Moves :
      (parent_id drawn : String) (given : Option String) (aside : String → Type 0)
      → Moves aside r (fork_image parent_id drawn given r).1
  unfolding fork_image forked
  fork_image-Moves parent_id drawn given aside = elim (Option-cases (Dict.get parent_id r.images)) [
    | inl e ↦ rw (e, fork_image) unmoved
    | inr (parent, e) ↦ elim (Bool-cases (Dict.has (given_or given drawn) r.images)) [
      | inl t ↦ rw (e, fork_image, t) unmoved
      | inr f ↦ rw (e, fork_image, f) (adds (given_or given drawn) _ (r.tables parent.refs) f refl)
    ]
  ]

  attach_ref-Moves :
      (id page : String) (residency : Residency)
      → Moves (λ k. id ≢ k) r (attach_ref id page residency r).1
  unfolding attach_ref
  attach_ref-Moves id page residency = elim (Option-cases (Dict.get id r.images)) [
    | inl e ↦ rw (e, attach_ref) unmoved
    | inr (image, e) ↦ elim (Bool-cases (Dict.has page (r.tables image.refs))) [
      | inl t ↦ rw (e, attach_ref, t) unmoved
      | inr f ↦ rw (e, attach_ref, f) (writes id image _ e (λ k d. d))
    ]
  ]

  detach_ref-Moves : (id page : String) → Moves (λ k. id ≢ k) r (detach_ref id page r).1
  unfolding detach_ref
  detach_ref-Moves id page = elim (Option-cases (Dict.get id r.images)) [
    | inl e ↦ rw (e, detach_ref) unmoved
    | inr (image, e) ↦ elim (Bool-cases (Dict.has page (r.tables image.refs))) [
      | inr f ↦ rw (e, detach_ref, f) unmoved
      | inl t ↦ rw (e, detach_ref, t) (writes id image _ e (λ k d. d))
    ]
  ]

  set_residency_ref-Moves :
      (id page : String) (residency : Residency)
      → Moves (λ k. id ≢ k) r (set_residency_ref id page residency r).1
  unfolding set_residency_ref
  set_residency_ref-Moves id page residency = elim (Option-cases (Dict.get id r.images)) [
    | inl e ↦ rw (e, set_residency_ref) unmoved
    | inr (image, e) ↦ elim (Bool-cases (Dict.has page (r.tables image.refs))) [
      | inr f ↦ rw (e, set_residency_ref, f) unmoved
      | inl t ↦ rw (e, set_residency_ref, t) (writes id image _ e (λ k d. d))
    ]
  ]

  step-Moves : (call : RegistryCall) → Moves (λ k. IsAside k call) r (registry_step call r)
  unfolding registry_step
  step-Moves (creates drawn given) = create-Moves drawn given (λ k. Unit)
  step-Moves (forks parent_id drawn given) = fork_image-Moves parent_id drawn given (λ k. Unit)
  step-Moves (attaches id page residency) = attach_ref-Moves id page residency
  step-Moves (sets id page residency) = set_residency_ref-Moves id page residency
  step-Moves (detaches id page) = detach_ref-Moves id page

pub moved-Separate :
    (aside : String → Type 0) (r r' : ImageRegistry) → Moves aside r r' → Separate r → Separate r'
moved-Separate aside r _ unmoved s = s
moved-Separate aside r _ (adds id image entries f e) s = added-Separate id image entries r e s
moved-Separate aside r _ (writes id image entries e d) s = rewritten-Separate id image entries r e s

pub moved-Stands :
    (aside : String → Type 0) (k : String) (i : StoredImage) (table : Dict Residency)
    (r r' : ImageRegistry)
    → Moves aside r r'
    → aside k
    → Separate r
    → Stands k i table r
    → Stands k i table r'
moved-Stands aside k i table r _ unmoved a s h = h
moved-Stands aside k i table r _ (adds id image entries f e) a s h =
    added-Stands id k image i entries table r f s h
moved-Stands aside k i table r _ (writes id image entries e d) a s h =
    rewritten-Stands id k image i entries table r e (d k a) s h

pub run-Separate :
    (calls : List RegistryCall) (r : ImageRegistry) → Separate r → Separate (registry_run calls r)
unfolding registry_run
run-Separate [] r s = s
run-Separate (call ∷ calls) r s =
    run-Separate calls (registry_step call r)
      (moved-Separate (λ k. IsAside k call) r (registry_step call r) (step-Moves r call) s)

pub run-Stands :
    (calls : List RegistryCall) (k : String) (i : StoredImage) (table : Dict Residency)
    (r : ImageRegistry)
    → All (IsAside k) calls
    → Separate r
    → Stands k i table r
    → Stands k i table (registry_run calls r)
unfolding registry_run
run-Stands [] k i table r a s h = h
run-Stands (call ∷ calls) k i table r (a, rest) s h =
    let moves = step-Moves r call in
    let aside : String → Type 0 = λ k. IsAside k call in
    run-Stands calls k i table (registry_step call r) rest
      (moved-Separate aside r (registry_step call r) moves s)
      (moved-Stands aside k i table r (registry_step call r) moves a s h)

pub empty-Separate : Separate empty_registry
unfolding Dict.get
empty-Separate = record {
  made = λ k i h. absurd (ground arith);
  apart = λ k j i i' h h' d. absurd (ground arith);
}
