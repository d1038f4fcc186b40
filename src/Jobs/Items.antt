-- ===== src/Jobs/Items.antt =====
-- The item of an id, after what apps/api/src/jobQueue.ts writes to the outbox.
use consisten_cy.Base.{
  ℕ, ◌≡◌, ◌≢◌, refl, sym, ap, ◌∙◌, subst, String, Option, none, some, List, [], ◌∷◌, ◌++◌, arith,
  string_dec, if◌then◌else◌, Bool-cases, Option-cases, inl, inr,
}
use consisten_cy.Base.Dict
use consisten_cy.Base.Dict.{Dict}
use consisten_cy.Jobs.Data.{PublishOutboxItem}
use consisten_cy.Jobs.Operations.{value_or}
use consisten_cy.Jobs.Outbox.{
  new_item, has_target, with_item, find_in, find_item, replace, replace_item, beside, text_eq,
}

-- A write of the item with the id.
find_in-replace :
    (k id : String) (new : PublishOutboxItem) (items : List PublishOutboxItem)
    → new.id ≡ id
    → find_in k (replace id new items) ≡ (
        if text_eq id k
        then (if Dict.is_some (find_in id items) then some new else none)
        else find_in k items)
unfolding find_in replace
find_in-replace k id new [] e = ground arith
find_in-replace k id new (item ∷ items) e = ground (arith, find_in-replace k id new items)

-- The item in its place, written anew.
abbrev pub moved :
    PublishOutboxItem → Option (String × PublishOutboxItem) → Option (String × PublishOutboxItem)
moved new none = none
moved new (some (job_id, item)) = some (job_id, new)

pub find_item-replace :
    (k id : String) (new : PublishOutboxItem) (outbox : Dict (List PublishOutboxItem))
    → new.id ≡ id
    → find_item k (replace_item id new outbox)
      ≡ (if text_eq id k then moved new (find_item id outbox) else find_item k outbox)
unfolding find_item replace_item
find_item-replace k id new [] e = ground arith
find_item-replace k id new ((j, items) ∷ entries) e =
    ground (arith, find_item-replace k id new entries, find_in-replace k id new items)

find_item-set :
    (k j : String) (items : List PublishOutboxItem) (outbox : Dict (List PublishOutboxItem))
    → find_in k items ≡ find_in k (value_or (Dict.get j outbox) [])
    → find_item k (Dict.set j items outbox) ≡ find_item k outbox
unfolding find_item Dict.get Dict.set find_in
find_item-set k j items [] e = rw e refl
find_item-set k j items ((i, own) ∷ outbox) e = elim (string_dec i j) [
  | yes same ↦ ground arith
  | no other ↦ ground (arith, find_item-set k j items outbox)
]

find_in-snoc :
    (k : String) (items : List PublishOutboxItem) (new : PublishOutboxItem)
    → new.id ≢ k
    → find_in k (items ++ new ∷ []) ≡ find_in k items
unfolding find_in
find_in-snoc k [] new apart = ground arith
find_in-snoc k (item ∷ items) new apart = ground (arith, find_in-snoc k items new)

-- A new item under another id.
pub find_item-persist :
    (k : String) (now : ℕ) (item_id j : String) (outbox : Dict (List PublishOutboxItem))
    → item_id ≢ k
    → find_item k (Dict.set j (with_item now item_id j (value_or (Dict.get j outbox) [])) outbox)
      ≡ find_item k outbox
find_item-persist k now item_id j outbox apart = find_item-set k j _ outbox (
    let own = value_or (Dict.get j outbox) [] in
    elim (Bool-cases (has_target "github_comment" own)) [
      | inl t ↦ rw t refl
      | inr f ↦ rw f (find_in-snoc k own (new_item now item_id j) apart)
    ])

find_in-id :
    (id : String) (i : PublishOutboxItem) (items : List PublishOutboxItem)
    → find_in id items ≡ some i
    → i.id ≡ id
unfolding find_in
find_in-id id i [] h = cc
find_in-id id i (item ∷ items) h = elim (string_dec item.id id) [
  | yes e ↦
      let same : item ≡ i = ground arith in sym (ap (λ (x : PublishOutboxItem). x.id) same) ∙ e
  | no n ↦ find_in-id id i items (ground arith)
]

pub find_item-id :
    (id j : String) (i : PublishOutboxItem) (outbox : Dict (List PublishOutboxItem))
    → find_item id outbox ≡ some (j, i)
    → i.id ≡ id
unfolding find_item
find_item-id id j i [] h = cc
find_item-id id j i ((own, items) ∷ outbox) h = elim (Option-cases (find_in id items)) [
  | inl e ↦ find_item-id id j i outbox (sym (ap (λ o. beside own o (find_item id outbox)) e) ∙ h)
  | inr (item, e) ↦
      let found : some (own, item) ≡ some (j, i) =
        sym (ap (λ o. beside own o (find_item id outbox)) e) ∙ h in
      find_in-id id i items (e ∙ (ground (arith, found)))
]

-- Where the item of an id stands, and what is written there.
pub record Located (id j : String) (i : PublishOutboxItem) (outbox : Dict (List PublishOutboxItem))
    : Type 0 where
  pub items : List PublishOutboxItem
  pub entry : Dict.get j outbox ≡ some items
  pub found : find_in id items ≡ some i
  pub written :
      (new : PublishOutboxItem)
      → replace_item id new outbox ≡ Dict.set j (replace id new items) outbox

Located-here :
    (id j : String) (i : PublishOutboxItem) (items : List PublishOutboxItem)
    (outbox : Dict (List PublishOutboxItem))
    → find_in id items ≡ some i
    → Located id j i ((j, items) ∷ outbox)
unfolding replace_item Dict.get Dict.set
Located-here id j i items outbox e = record {
  items = items;
  entry = ground arith;
  found = e;
  written = λ new. ground (arith, e);
}

Located-there :
    (id j own : String) (i : PublishOutboxItem) (items : List PublishOutboxItem)
    (outbox : Dict (List PublishOutboxItem))
    → find_in id items ≡ none
    → own ≢ j
    → Located id j i outbox
    → Located id j i ((own, items) ∷ outbox)
unfolding replace_item Dict.get Dict.set
Located-there id j own i items outbox e apart l = record {
  items = l.items;
  entry = ground (arith, l.entry);
  found = l.found;
  written = λ new. ground (arith, e, l.written new);
}

pub find_item-Located :
    (id j : String) (i : PublishOutboxItem) (outbox : Dict (List PublishOutboxItem))
    → Dict.HasDistinctKeys outbox
    → find_item id outbox ≡ some (j, i)
    → Located id j i outbox
unfolding find_item
find_item-Located id j i [] d h = absurd (ground arith)
find_item-Located id j i ((own, items) ∷ outbox) d h = elim (Option-cases (find_in id items)) [
  | inr (item, e) ↦
      let here : ◌≡◌ {A = Option (String × PublishOutboxItem)} (some (own, item)) (some (j, i)) =
        sym (ap (λ o. beside own o (find_item id outbox)) e) ∙ h in
      let same_job : own ≡ j = ground arith in
      let same_item : item ≡ i = ground arith in
      subst (λ x. Located id j i ((x, items) ∷ outbox)) (sym same_job)
        (Located-here id j i items outbox (e ∙ ap (λ x. some x) same_item))
  | inl e ↦
      let tail : find_item id outbox ≡ some (j, i) =
        sym (ap (λ o. beside own o (find_item id outbox)) e) ∙ h in
      let l = find_item-Located id j i outbox d.1 tail in
      Located-there id j own i items outbox e
        (λ same. absurd (ground (arith, l.entry, subst (λ x. Dict.get x outbox ≡ none) same d.0))) l
]
