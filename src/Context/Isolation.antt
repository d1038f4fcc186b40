-- ===== src/Context/Isolation.antt =====
-- A fork and its parent do not change each other: packages/kernel/src/context/image.ts.
use consisten_cy.Base.{
  ◌≡◌, refl, sym, ap, ◌∙◌, String, false, Option, some, List, arith, ok, All, Option-cases, inl,
  inr,
}
use consisten_cy.Base.Dict
use consisten_cy.Base.Dict.{Dict}
use consisten_cy.Context.Data.{Residency, ImageRecord}
use consisten_cy.Context.Operations.{given_or}
use consisten_cy.Context.Images.{
  StoredImage, ImageRegistry, forked, fork_image, read, RegistryCall, registry_run, empty_registry,
}
use consisten_cy.Context.Tables.{
  Stands, IsAside, fork_image-Moves, moved-Separate, moved-Stands, run-Separate, run-Stands,
  empty-Separate,
}

-- An image as it is read, and its table.
abbrev recorded : StoredImage → Dict Residency → ImageRecord
recorded i table = record { id = i.id; generation = i.generation; base = i.base; refs = table }

read-Stands :
    (k : String) (x : ImageRecord) (r : ImageRegistry)
    → read k r ≡ some x
    → (i : StoredImage) × Stands k i x.refs r
      × (i.id ≡ x.id)
      × (i.generation ≡ x.generation)
      × (x ≡ recorded i x.refs)
unfolding read
read-Stands k x r e = elim (Option-cases (Dict.get k r.images)) [
  | inl n ↦ absurd (ground arith)
  | inr (i, h) ↦ (i, (h, ground arith), ground arith, ground arith, ground arith)
]

Stands-read :
    (k : String) (i : StoredImage) (table : Dict Residency) (r : ImageRegistry)
    → Stands k i table r
    → read k r ≡ some (recorded i table)
unfolding read
Stands-read k i table r (h, t) = rw (read, h, t) refl

fork_found :
    (parent_id drawn : String) (given : Option String) (parent : StoredImage) (r : ImageRegistry)
    → Dict.get parent_id r.images ≡ some parent
    → Dict.has (given_or given drawn) r.images ≡ false
    → fork_image parent_id drawn given r
      ≡ (ok (given_or given drawn), forked (given_or given drawn) parent r)
unfolding fork_image
fork_found parent_id drawn given parent r h f = rw (fork_image, h, f) refl

abbrev child : String → StoredImage → ImageRegistry → StoredImage
child id parent r = record {
  id = id;
  generation = 1;
  base = some (record { image_id = parent.id; generation = parent.generation });
  refs = r.made;
}

forked-Stands :
    (id : String) (parent : StoredImage) (table : Dict Residency) (r : ImageRegistry)
    → r.tables parent.refs ≡ table
    → Stands id (child id parent r) table (forked id parent r)
unfolding forked
forked-Stands id parent table r t =
    (ground (arith, Dict.get-set id id (child id parent r) r.images), ground arith)

-- In a registry that any calls have made, a fork of an image under a free id succeeds. The child has the
-- entries of its parent's table, generation 1 and the parent's id and generation as its base, and keeps
-- them under any calls that write to no image of its id; the parent is as it was, and stays so under any
-- calls that write to no image of its id. Tables are objects that images refer to and that writes change
-- in place.
pub fork_isolated :
    (before calls : List RegistryCall) (parent_id drawn : String) (given : Option String)
    (parent : ImageRecord)
    → read parent_id (registry_run before empty_registry) ≡ some parent
    → Dict.has (given_or given drawn) (registry_run before empty_registry).images ≡ false
    → let (answer, after) = fork_image parent_id drawn given (registry_run before empty_registry) in
      (answer ≡ ok (given_or given drawn))
      × (All (IsAside (given_or given drawn)) calls
          → read (given_or given drawn) (registry_run calls after)
            ≡ some (record {
              id = given_or given drawn;
              generation = 1;
              base = some (record { image_id = parent.id; generation = parent.generation });
              refs = parent.refs;
            }))
      × (All (IsAside parent_id) calls → read parent_id (registry_run calls after) ≡ some parent)
fork_isolated before calls parent_id drawn given parent h f =
    let id = given_or given drawn in
    let r = registry_run before empty_registry in
    let separate = run-Separate before empty_registry empty-Separate in
    let (i, there, same_id, same_generation, whole) = read-Stands parent_id parent r h in
    let after = (fork_image parent_id drawn given r).1 in
    let found = fork_found parent_id drawn given i r there.0 f in
    let moves = fork_image-Moves r parent_id drawn given (λ k. Unit {0}) in
    let separate' = moved-Separate (λ k. Unit {0}) r after moves separate in
    let there' =
      moved-Stands (λ k. Unit {0}) parent_id i parent.refs r after moves tt separate there in
    let new : Stands id (child id i r) parent.refs after =
      rw found (forked-Stands id i parent.refs r there.1) in
    (
      rw found refl,
      λ a.
          Stands-read id (child id i r) parent.refs (registry_run calls after)
            (run-Stands calls id (child id i r) parent.refs after a separate' new)
          ∙ rw (same_id, same_generation) refl,
      λ a.
          Stands-read parent_id i parent.refs (registry_run calls after)
            (run-Stands calls parent_id i parent.refs after a separate' there')
          ∙ ap some (sym whole),
    )
