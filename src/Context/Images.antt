-- ===== src/Context/Images.antt =====
-- `ImageRegistry` of packages/kernel/src/context/image.ts with its maps as objects of the heap: an image
-- refers to its table, `fork` copies the entries to a new one, and a write goes to the object.
use consisten_cy.Base.{
  ℕ, ◌+◌, ◌==◌, String, Option, none, some, List, [], ◌∷◌, not, Exec, ok, err, if◌then◌else◌,
}
use consisten_cy.Base.Dict
use consisten_cy.Base.Dict.{Dict}
use consisten_cy.Context.Data.{
  Residency, Base, ImageRecord, ContextFault, image_not_found, image_id_conflict,
  page_already_attached, page_not_attached,
}
use consisten_cy.Context.Operations.{given_or}

-- An image record, whose `refs` is the address of its table.
pub record StoredImage : Type 0 where
  pub id : String
  pub generation : ℕ
  pub base : Option Base
  pub refs : ℕ

-- The registry, with the tables at their addresses and the number of those that were made.
pub record ImageRegistry : Type 0 where
  pub images : Dict StoredImage
  pub tables : ℕ → Dict Residency
  pub made : ℕ

abbrev pub Registered : Type 0 → Type 0
Registered A = Exec ImageRegistry ContextFault A

abbrev pub write : ℕ → Dict Residency → (ℕ → Dict Residency) → ℕ → Dict Residency
write at table tables n = if n == at then table else tables n

-- `new Map(entries)`, whose address is the number of the tables made before.
abbrev pub new_map : Dict Residency → ImageRegistry → ImageRegistry
new_map entries r = record r { tables = write r.made entries r.tables; made = r.made + 1 }

abbrev pub add : String → StoredImage → ImageRegistry → ImageRegistry
add id image r = record r { images = Dict.set id image r.images }

abbrev pub created : String → ImageRegistry → ImageRegistry
created id r =
    add id (record { id = id; generation = 1; base = none; refs = r.made }) (new_map [] r)

unfoldable pub create : String → Option String → Registered String
create drawn given r =
    if Dict.has (given_or given drawn) r.images
    then (err (image_id_conflict (given_or given drawn)), r)
    else (ok (given_or given drawn), created (given_or given drawn) r)

unfoldable pub forked : String → StoredImage → ImageRegistry → ImageRegistry
forked id parent r =
    add id
      (record {
        id = id;
        generation = 1;
        base = some (record { image_id = parent.id; generation = parent.generation });
        refs = r.made;
      })
      (new_map (r.tables parent.refs) r)

unfoldable pub fork_image : String → String → Option String → Registered String
fork_image parent_id drawn given r = elim (Dict.get parent_id r.images) [
  | none ↦ (err (image_not_found parent_id), r)
  | some parent ↦
      if Dict.has (given_or given drawn) r.images
      then (err (image_id_conflict (given_or given drawn)), r)
      else (ok (given_or given drawn), forked (given_or given drawn) parent r)
]

-- A write to the table of an image, which is a generation of it.
abbrev pub rewritten : String → StoredImage → Dict Residency → ImageRegistry → ImageRegistry
rewritten image_id image table r = record r {
  images = Dict.set image_id (record image { generation = image.generation + 1 }) r.images;
  tables = write image.refs table r.tables;
}

unfoldable pub attach_ref : String → String → Residency → Registered (Unit {0})
attach_ref image_id page_id residency r = elim (Dict.get image_id r.images) [
  | none ↦ (err (image_not_found image_id), r)
  | some image ↦
      if Dict.has page_id (r.tables image.refs)
      then (err (page_already_attached image_id page_id), r)
      else (ok tt, rewritten image_id image (Dict.set page_id residency (r.tables image.refs)) r)
]

unfoldable pub detach_ref : String → String → Registered (Unit {0})
detach_ref image_id page_id r = elim (Dict.get image_id r.images) [
  | none ↦ (err (image_not_found image_id), r)
  | some image ↦
      if not (Dict.has page_id (r.tables image.refs))
      then (err (page_not_attached image_id page_id), r)
      else (ok tt, rewritten image_id image (Dict.delete page_id (r.tables image.refs)) r)
]

unfoldable pub set_residency_ref : String → String → Residency → Registered (Unit {0})
set_residency_ref image_id page_id residency r = elim (Dict.get image_id r.images) [
  | none ↦ (err (image_not_found image_id), r)
  | some image ↦
      if not (Dict.has page_id (r.tables image.refs))
      then (err (page_not_attached image_id page_id), r)
      else (ok tt, rewritten image_id image (Dict.set page_id residency (r.tables image.refs)) r)
]

-- The image with the entries of its table.
unfoldable pub read : String → ImageRegistry → Option ImageRecord
read id r = elim (Dict.get id r.images) [
  | none ↦ none
  | some image ↦ some (record {
    id = image.id;
    generation = image.generation;
    base = image.base;
    refs = r.tables image.refs;
  })
]

pub data RegistryCall : Type 0 where
  creates : String → Option String → RegistryCall
  forks : String → String → Option String → RegistryCall
  attaches sets : String → String → Residency → RegistryCall
  detaches : String → String → RegistryCall

unfoldable pub registry_step : RegistryCall → ImageRegistry → ImageRegistry
registry_step (creates drawn given) r = (create drawn given r).1
registry_step (forks parent_id drawn given) r = (fork_image parent_id drawn given r).1
registry_step (attaches image_id page_id residency) r = (attach_ref image_id page_id residency r).1
registry_step (sets image_id page_id residency) r =
    (set_residency_ref image_id page_id residency r).1
registry_step (detaches image_id page_id) r = (detach_ref image_id page_id r).1

unfoldable pub registry_run : List RegistryCall → ImageRegistry → ImageRegistry
registry_run [] r = r
registry_run (call ∷ calls) r = registry_run calls (registry_step call r)

abbrev pub empty_registry : ImageRegistry
empty_registry = record { images = []; tables = λ n. []; made = 0 }
