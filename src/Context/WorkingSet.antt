-- ===== src/Context/WorkingSet.antt =====
-- The order of pages and the working set: packages/kernel/src/context/working-set.ts. The sort is
-- stable, as the language's is; texts are compared by their characters, and ids are ASCII.
use Prim.Native.Nat
use Prim.Native.Nat.{Ordering}
use Prim.Native.String
use consisten_cy.Base.{
  ℕ, ◌+◌, String, Bool, true, false, ◌||◌, none, some, List, [], ◌∷◌, Result, ok, err,
  if◌then◌else◌,
}
use consisten_cy.Base.Dict
use consisten_cy.Base.Dict.{Dict}
use consisten_cy.Context.Data.{
  context_page_kind_precedence, Residency, pinned, hot, residency_eq, ContextPage, ImageRecord,
  ResolvedPage, WorkingSetSnapshot, ContextImageSnapshot, ContextFault, unknown_reference,
}

-- First the precedence of the kind, then the id.
abbrev pub compare_by : Ordering → Ordering → Ordering
compare_by Ordering.eq by_id = by_id
compare_by by_kind by_id = by_kind

abbrev pub compare_resolved_pages : ResolvedPage → ResolvedPage → Ordering
compare_resolved_pages a b =
    compare_by
      (Prim.Native.Nat.compare (context_page_kind_precedence a.page.kind)
        (context_page_kind_precedence b.page.kind))
      (Prim.Native.String.compare a.page.id b.page.id)

abbrev pub is_after : ResolvedPage → ResolvedPage → Bool
is_after a b = elim (compare_resolved_pages a b) [ Ordering.gt ↦ true | _ ↦ false ]

unfoldable pub insert : ResolvedPage → List ResolvedPage → List ResolvedPage
insert a [] = a ∷ []
insert a (b ∷ pages) = let rest = insert a pages in if is_after a b then b ∷ rest else a ∷ b ∷ pages

unfoldable pub order_resolved_pages : List ResolvedPage → List ResolvedPage
order_resolved_pages [] = []
order_resolved_pages (a ∷ pages) = insert a (order_resolved_pages pages)

-- The loop of `resolveImage` over the table.
abbrev add_page :
    Residency
    → ContextPage
    → Result ContextFault (List ResolvedPage)
    → Result ContextFault (List ResolvedPage)
add_page residency page (ok pages) = ok (record { page = page; residency = residency } ∷ pages)
add_page residency page (err e) = err e

unfoldable pub resolve_refs :
    String → Dict ContextPage → Dict Residency → Result ContextFault (List ResolvedPage)
resolve_refs id store [] = ok []
resolve_refs id store ((page_id, residency) ∷ refs) =
    let rest = resolve_refs id store refs in
    elim (Dict.get page_id store) [
      | none ↦ err (unknown_reference id page_id)
      | some page ↦ add_page residency page rest
    ]

abbrev ordered : Result ContextFault (List ResolvedPage) → Result ContextFault (List ResolvedPage)
ordered (ok pages) = ok (order_resolved_pages pages)
ordered (err e) = err e

abbrev pub resolve_image : ImageRecord → Dict ContextPage → Result ContextFault (List ResolvedPage)
resolve_image image store = ordered (resolve_refs image.id store image.refs)

unfoldable pub references : List ResolvedPage → List (String × Residency)
references [] = []
references (a ∷ pages) = (a.page.id, a.residency) ∷ references pages

abbrev view_of :
    ImageRecord → Result ContextFault (List ResolvedPage) → Result ContextFault ContextImageSnapshot
view_of image (ok pages) = ok (record {
  id = image.id;
  generation = image.generation;
  base = image.base;
  pages = references pages;
})
view_of image (err e) = err e

-- `#imageSnapshot` of manager.ts.
abbrev pub snapshot_image :
    ImageRecord → Dict ContextPage → Result ContextFault ContextImageSnapshot
snapshot_image image store = view_of image (resolve_image image store)

abbrev pub is_resident : Residency → Bool
is_resident r = residency_eq r pinned || residency_eq r hot

unfoldable pub resident : List ResolvedPage → List ResolvedPage
resident [] = []
resident (a ∷ pages) =
    let rest = resident pages in if is_resident a.residency then a ∷ rest else rest

unfoldable pub total_tokens : List ResolvedPage → ℕ
total_tokens [] = 0
total_tokens (a ∷ pages) = a.page.estimated_tokens + total_tokens pages

abbrev snapshot_of :
    ImageRecord → Result ContextFault (List ResolvedPage) → Result ContextFault WorkingSetSnapshot
snapshot_of image (ok pages) = ok (record {
  image_id = image.id;
  generation = image.generation;
  pages = resident pages;
  estimated_tokens = total_tokens (resident pages);
})
snapshot_of image (err e) = err e

abbrev pub build_working_set :
    ImageRecord → Dict ContextPage → Result ContextFault WorkingSetSnapshot
build_working_set image store = snapshot_of image (resolve_image image store)
