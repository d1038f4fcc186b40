-- ===== src/Context/Operations.antt =====
-- The methods of `ContextManager` in packages/kernel/src/context/manager.ts, with those of
-- `ImageRegistry` in image.ts and `PageStore` in page-store.ts that they call.
use consisten_cy.Base.{
  ◌+◌, String, not, ◌&&◌, Option, none, some, List, [], Result, ok, err, Exec, ◌>>◌, if◌then◌else◌,
}
use consisten_cy.Base.Dict
use consisten_cy.Base.Dict.{Dict}
use consisten_cy.Context.Data.{
  Residency, pinned, hot, evicted, residency_eq, ContextPage, CreatePageSpec, ImageRecord,
  ResolvedPage, WorkingSetSnapshot, ContextImageSnapshot, ContextManager, ContextFault,
  page_not_found, image_not_found, page_already_exists, image_id_conflict, page_already_attached,
  page_not_attached, pinned_page_eviction, invalid_residency_transition,
}
use consisten_cy.Context.WorkingSet.{resolve_image, build_working_set, snapshot_image}

abbrev pub Action : Type 0 → Type 0
Action A = Exec ContextManager ContextFault A

-- `value ?? drawn`.
abbrev pub given_or {ℓ} : {A : Type ℓ} → Option A → A → A
given_or none drawn = drawn
given_or (some value) drawn = value

module _ (hash_text : String → String) where
  abbrev pub new_page : String → CreatePageSpec → ContextPage
  new_page id spec = record {
    id = id;
    kind = spec.kind;
    source = spec.source;
    content_hash = hash_text spec.text;
    text = spec.text;
    estimated_tokens = given_or spec.estimated_tokens 0;
    provenance = spec.provenance;
  }

  unfoldable pub create_page : String → CreatePageSpec → Action String
  create_page drawn spec m =
      let id = given_or spec.id drawn in
      if Dict.has id m.pages
      then (err (page_already_exists id), m)
      else (ok id, record m { pages = Dict.set id (new_page id spec) m.pages })

unfoldable pub create_image : String → Option String → Action String
create_image drawn given m =
    let id = given_or given drawn in
    if Dict.has id m.images then (err (image_id_conflict id), m) else (
      ok id,
      record m {
        images = Dict.set id (record { id = id; generation = 1; base = none; refs = [] }) m.images;
      },
    )

-- The table is a value here, so that its copy is the same; Images has it as an object.
abbrev pub child_of : String → ImageRecord → ImageRecord
child_of id parent = record {
  id = id;
  generation = 1;
  base = some (record { image_id = parent.id; generation = parent.generation });
  refs = parent.refs;
}

unfoldable pub fork : String → String → Option String → Action String
fork parent_id drawn given m = elim (Dict.get parent_id m.images) [
  | none ↦ (err (image_not_found parent_id), m)
  | some parent ↦
      let id = given_or given drawn in
      if Dict.has id m.images
      then (err (image_id_conflict id), m)
      else (ok id, record m { images = Dict.set id (child_of id parent) m.images })
]

-- A change of the table of an image counts as one generation.
abbrev pub retabled : Dict Residency → ImageRecord → ImageRecord
retabled refs image = record image { refs = refs; generation = image.generation + 1 }

abbrev pub save : String → ImageRecord → ContextManager → ContextManager
save id image m = record m { images = Dict.set id image m.images }

unfoldable pub attach_change : String → String → Residency → Action (Unit {0})
attach_change image_id page_id residency m =
    if not (Dict.has page_id m.pages)
    then (err (page_not_found page_id), m)
    else elim (Dict.get image_id m.images) [
      | none ↦ (err (image_not_found image_id), m)
      | some image ↦
          if Dict.has page_id image.refs
          then (err (page_already_attached image_id page_id), m)
          else (ok tt, save image_id (retabled (Dict.set page_id residency image.refs) image) m)
    ]

unfoldable pub detach_change : String → String → Action (Unit {0})
detach_change image_id page_id m = elim (Dict.get image_id m.images) [
  | none ↦ (err (image_not_found image_id), m)
  | some image ↦
      if not (Dict.has page_id image.refs)
      then (err (page_not_attached image_id page_id), m)
      else (ok tt, save image_id (retabled (Dict.delete page_id image.refs) image) m)
]

-- What each change of residency does with the image and the residency that it finds.
abbrev pub on_attached :
    String → String → (ImageRecord → Residency → Action (Unit {0})) → Action (Unit {0})
on_attached image_id page_id f m = elim (Dict.get image_id m.images) [
  | none ↦ (err (image_not_found image_id), m)
  | some image ↦ elim (Dict.get page_id image.refs) [
    | none ↦ (err (page_not_attached image_id page_id), m)
    | some current ↦ f image current m
  ]
]

abbrev pub put : String → String → Residency → ImageRecord → Action (Unit {0})
put image_id page_id residency image m =
    (ok tt, save image_id (retabled (Dict.set page_id residency image.refs) image) m)

abbrev pub set_found : String → String → Residency → ImageRecord → Residency → Action (Unit {0})
set_found image_id page_id residency image current m =
    if residency_eq current pinned && residency_eq residency evicted
    then (err (pinned_page_eviction image_id page_id), m)
    else put image_id page_id residency image m

unfoldable pub set_residency_change : String → String → Residency → Action (Unit {0})
set_residency_change image_id page_id residency =
    on_attached image_id page_id (set_found image_id page_id residency)

abbrev pub evict_found : String → String → ImageRecord → Residency → Action (Unit {0})
evict_found image_id page_id image current m =
    if residency_eq current pinned
    then (err (pinned_page_eviction image_id page_id), m)
    else if residency_eq current evicted
    then (err (invalid_residency_transition image_id page_id current evicted), m)
    else put image_id page_id evicted image m

unfoldable pub evict_change : String → String → Action (Unit {0})
evict_change image_id page_id = on_attached image_id page_id (evict_found image_id page_id)

abbrev pub page_in_found : String → String → ImageRecord → Residency → Action (Unit {0})
page_in_found image_id page_id image current m =
    if not (residency_eq current evicted)
    then (err (invalid_residency_transition image_id page_id current hot), m)
    else put image_id page_id hot image m

unfoldable pub page_in_change : String → String → Action (Unit {0})
page_in_change image_id page_id = on_attached image_id page_id (page_in_found image_id page_id)

abbrev pub project :
    {A : Type 0}
    → String
    → (ImageRecord → Dict ContextPage → Result ContextFault A)
    → ContextManager
    → Result ContextFault A
project image_id f m = elim (Dict.get image_id m.images) [
  | none ↦ err (image_not_found image_id)
  | some image ↦ f image m.pages
]

unfoldable pub resolve : String → ContextManager → Result ContextFault (List ResolvedPage)
resolve image_id m = project image_id resolve_image m

unfoldable pub working_set : String → ContextManager → Result ContextFault WorkingSetSnapshot
working_set image_id m = project image_id build_working_set m

-- `this.getImage(imageId)!`, which each change returns.
unfoldable pub image_snapshot : String → Action ContextImageSnapshot
image_snapshot image_id m = (project image_id snapshot_image m, m)

abbrev pub attach : String → String → Residency → Action ContextImageSnapshot
attach image_id page_id residency =
    attach_change image_id page_id residency >> image_snapshot image_id

abbrev pub detach : String → String → Action ContextImageSnapshot
detach image_id page_id = detach_change image_id page_id >> image_snapshot image_id

abbrev pub set_residency : String → String → Residency → Action ContextImageSnapshot
set_residency image_id page_id residency =
    set_residency_change image_id page_id residency >> image_snapshot image_id

abbrev pub evict : String → String → Action ContextImageSnapshot
evict image_id page_id = evict_change image_id page_id >> image_snapshot image_id

abbrev pub page_in : String → String → Action ContextImageSnapshot
page_in image_id page_id = page_in_change image_id page_id >> image_snapshot image_id
