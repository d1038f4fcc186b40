-- ===== src/Context/Tests.antt =====
-- The manager of packages/kernel/src/context/manager.ts on small inputs.
use mathlib.Core.List.{Memᴰ}
use consisten_cy.Base.{
  ◌⊎◌, ◌↔◌, arith, string_dec, All, ◌≡◌, refl, String, false, none, some, List, [], ◌∷◌, ok,
}
use consisten_cy.Base.Dict
use consisten_cy.Base.Dict.{Dict}
use consisten_cy.Context.Data.{
  WorkingSetSnapshot, ContextPageKind, source, policy, pinned, hot, cold, ContextPage,
  CreatePageSpec, ResolvedPage, ImageRecord, ContextManager,
}
use consisten_cy.Context.WorkingSet.{total_tokens, resolve_refs, order_resolved_pages, insert}
use consisten_cy.Context.Operations.{
  working_set, create_page, create_image, attach_change, image_snapshot, resolve,
}
use consisten_cy.Context.Calls.{Call, creates_page, creates_image, attaches, evicts, step, run}
use consisten_cy.Context.Invariant.{Inv, run-Inv}
use consisten_cy.Context.Order.{IsOrdered}
use consisten_cy.Context.Projection.{Refers, resolve_lem, working_set_lem}
use consisten_cy.Context.Residency.{residency_in, NotEvicted, step_pinned}
use consisten_cy.Context.Images.{
  RegistryCall, creates, registry_run, registry_step, empty_registry, create, attach_ref,
  fork_image, read,
}
use consisten_cy.Context.Tables.{IsAside}
use consisten_cy.Context.Isolation.{fork_isolated}

abbrev hash : String → String
hash text = "#"

abbrev spec : ContextPageKind → String → CreatePageSpec
spec kind id = record {
  id = some id;
  kind = kind;
  text = "text";
  estimated_tokens = some 7;
  source = none;
  provenance = record { repository = none; sha = none; producer = "p"; producer_version = "1" };
}

abbrev empty : ContextManager
empty = record { pages = []; images = [] }

empty-Inv : Inv empty
unfolding Dict.get string_dec
empty-Inv = record { distinct = λ i r h. ground arith; known = λ i r p h k. ground arith }

abbrev opening : List Call
opening =
    creates_page "x" (spec source "a")
    ∷ creates_page "x" (spec policy "b")
    ∷ creates_image "i" none
    ∷ attaches "i" "a" hot
    ∷ attaches "i" "b" pinned
    ∷ []

-- The state after the opening.
abbrev opened : ContextManager
opened = run hash opening empty

abbrev row : ImageRecord
row = record { id = "i"; generation = 3; base = none; refs = ("a", hot) ∷ ("b", pinned) ∷ [] }

opened_row : Dict.get "i" opened.images ≡ some row
unfolding run step create_page create_image attach_change image_snapshot Dict.get Dict.set Dict.has
    resolve_refs order_resolved_pages insert string_dec
opened_row = refl

opened-Inv : Inv opened
opened-Inv = run-Inv hash opening empty empty-Inv

row_a : Dict.get "a" row.refs ≡ some hot
unfolding Dict.get string_dec
row_a = refl

row_b : Dict.get "b" row.refs ≡ some pinned
unfolding Dict.get string_dec
row_b = refl

abbrev page_a : ContextPage
page_a = record {
  id = "a";
  kind = source;
  source = none;
  content_hash = "#";
  text = "text";
  estimated_tokens = 7;
  provenance = record { repository = none; sha = none; producer = "p"; producer_version = "1" };
}

opened_page : Dict.get "a" opened.pages ≡ some page_a
unfolding run step create_page create_image attach_change image_snapshot Dict.get Dict.set Dict.has
    resolve_refs order_resolved_pages insert string_dec
opened_page = refl

opened_free : Dict.has "child" opened.images ≡ false
unfolding run step create_page create_image attach_change image_snapshot Dict.get Dict.set Dict.has
    resolve_refs order_resolved_pages insert string_dec
opened_free = refl

run-Inv_example : Inv (run hash opening empty)
run-Inv_example = run-Inv hash opening empty empty-Inv

step_pinned_example :
    NotEvicted (residency_in "b" (Dict.get "i" (step hash (evicts "i" "b") opened).images))
step_pinned_example =
    step_pinned hash (evicts "i" "b") opened "i" "b" row opened-Inv opened_row row_b

-- An image with one page.
abbrev registered : List RegistryCall
registered = creates "drawn" (some "i") ∷ RegistryCall.attaches "i" "a" hot ∷ []

abbrev registered_row : ImageRecord
registered_row = record { id = "i"; generation = 2; base = none; refs = ("a", hot) ∷ [] }

registered_found : read "i" (registry_run registered empty_registry) ≡ some registered_row
unfolding registry_run registry_step create attach_ref read Dict.get Dict.set Dict.has string_dec
registered_found = refl

registered_free : Dict.has "child" (registry_run registered empty_registry).images ≡ false
unfolding registry_run registry_step create attach_ref Dict.get Dict.set Dict.has string_dec
registered_free = refl

-- What changes the parent after the fork.
abbrev afterwards : List RegistryCall
afterwards =
    RegistryCall.detaches "i" "a"
    ∷ RegistryCall.attaches "i" "b" cold
    ∷ RegistryCall.sets "i" "b" hot
    ∷ []

fork_isolated_example :
    let (answer, after) = fork_image "i" "child" none (registry_run registered empty_registry) in
    (answer ≡ ok "child")
    × (All (IsAside "child") afterwards
        → read "child" (registry_run afterwards after)
          ≡ some (record {
            id = "child";
            generation = 1;
            base = some (record { image_id = "i"; generation = 2 });
            refs = ("a", hot) ∷ [];
          }))
    × (All (IsAside "i") afterwards
        → read "i" (registry_run afterwards after) ≡ some registered_row)
fork_isolated_example =
    fork_isolated registered afterwards "i" "child" none registered_row registered_found
      registered_free

resolve_lem_example :
    (pages : List ResolvedPage) × (resolve "i" opened ≡ ok pages)
    × IsOrdered pages
    × ((x : ResolvedPage) → Memᴰ x pages ↔ Refers opened.pages row.refs x)
resolve_lem_example = resolve_lem opened "i" row opened-Inv opened_row

working_set_lem_example :
    (w : WorkingSetSnapshot) × (working_set "i" opened ≡ ok w)
    × (w.estimated_tokens ≡ total_tokens w.pages)
    × ((x : ResolvedPage)
        → Memᴰ x w.pages
          ↔ (Refers opened.pages row.refs x × ((x.residency ≡ pinned) ⊎ (x.residency ≡ hot))))
working_set_lem_example = working_set_lem opened "i" row opened-Inv opened_row
