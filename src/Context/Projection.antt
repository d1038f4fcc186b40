-- ===== src/Context/Projection.antt =====
-- The projection of an image in packages/kernel/src/context/working-set.ts and manager.ts: what is
-- resolved and what is in the working set.
use mathlib.Core.List.{Memᴰ}
use mathlib.Core.List.Memᴰ
use consisten_cy.Base.{
  ◌≡◌, refl, sym, ◌∙◌, ap, String, true, none, some, List, [], ◌∷◌, arith, ok, ◌⊎◌, inl, inr,
  Bool-cases, Option-cases, ◌↔◌, string_dec,
}
use consisten_cy.Base.Dict
use consisten_cy.Base.Dict.{Dict}
use consisten_cy.Context.Data.{
  pinned, hot, cold, evicted, Residency, ContextPage, ImageRecord, ResolvedPage, WorkingSetSnapshot,
  ContextManager,
}
use consisten_cy.Context.WorkingSet.{
  resolve_refs, resolve_image, build_working_set, order_resolved_pages, is_resident, resident,
  total_tokens,
}
use consisten_cy.Context.Operations.{project, resolve, working_set}
use consisten_cy.Context.Invariant.{Inv}
use consisten_cy.Context.Order.{
  IsOrdered, order_resolved_pages-IsOrdered, order_resolved_pages-Memᴰ,
}

-- The table gives a page of the store its residency.
abbrev pub Refers : Dict ContextPage → Dict Residency → ResolvedPage → Type 0
Refers store refs x =
    (p : String) × (Dict.get p refs ≡ some x.residency) × (Dict.get p store ≡ some x.page)

resolve_refs_cons :
    (id p : String) (r : Residency) (q : ContextPage) (store : Dict ContextPage)
    (refs : Dict Residency) (rest : List ResolvedPage)
    → Dict.get p store ≡ some q
    → resolve_refs id store refs ≡ ok rest
    → resolve_refs id store ((p, r) ∷ refs) ≡ ok (record { page = q; residency = r } ∷ rest)
unfolding resolve_refs
resolve_refs_cons id p r q store refs rest found e = rw (resolve_refs, found, e) refl

has_rest :
    (p q : String) (r : Residency) (refs : Dict Residency)
    → Dict.has q refs ≡ true
    → Dict.has q ((p, r) ∷ refs) ≡ true
unfolding Dict.has Dict.get
has_rest p q r refs h = ground arith

has_first : (p : String) (r : Residency) (refs : Dict Residency) → Dict.has p ((p, r) ∷ refs) ≡ true
unfolding Dict.has Dict.get
has_first p r refs = ground arith

has_found :
    {V : Type 0} (p : String) (d : Dict V) → Dict.has p d ≡ true → (v : V) × (Dict.get p d ≡ some v)
unfolding Dict.has
has_found p d h = elim (Option-cases (Dict.get p d)) [
  | inl e ↦ absurd (ground arith)
  | inr found ↦ found
]

entry_eq :
    (x : ResolvedPage) (q : ContextPage) (r : Residency)
    → x.page ≡ q
    → x.residency ≡ r
    → x ≡ record { page = q; residency = r }
entry_eq x q r e f = λ i. record { page = e i; residency = f i }

-- The entries of a table with one entry more.
Refers-cons :
    (p : String) (r : Residency) (q : ContextPage) (store : Dict ContextPage)
    (refs : Dict Residency) (x : ResolvedPage)
    → Dict.get p refs ≡ none
    → Dict.get p store ≡ some q
    → Refers store ((p, r) ∷ refs) x
      ↔ ((x ≡ record { page = q; residency = r }) ⊎ Refers store refs x)
unfolding Dict.get
Refers-cons p r q store refs x fresh found = (
  λ (k, g, s). elim (string_dec p k) [
    | yes e ↦ inl (entry_eq x q r (ground arith) (ground arith))
    | no n ↦ inr (k, ground arith, s)
  ],
  λ c. elim c [
    | inl e ↦ (p, ground arith, found ∙ ap (λ (y : ResolvedPage). some y.page) (sym e))
    | inr (k, g, s) ↦ elim (string_dec p k) [
      | yes e ↦ absurd (ground arith)
      | no n ↦ (k, ground arith, s)
    ]
  ],
)

-- The table of an image resolves to the entries that it refers to.
resolve_refs_lem :
    (id : String) (store : Dict ContextPage) (refs : Dict Residency)
    → Dict.HasDistinctKeys refs
    → ((p : String) → Dict.has p refs ≡ true → Dict.has p store ≡ true)
    → (pages : List ResolvedPage) × (resolve_refs id store refs ≡ ok pages)
      × ((x : ResolvedPage) → Memᴰ x pages ↔ Refers store refs x)
unfolding resolve_refs Dict.get
resolve_refs_lem id store [] d k =
    ([], refl, λ x. (λ m. absurd (Memᴰ.not-nil m), λ (p, g, s). absurd (ground arith)))
resolve_refs_lem id store ((p, r) ∷ refs) d k =
    let (rest, e, below) =
      resolve_refs_lem id store refs d.1 (λ q h. k q (has_rest p q r refs h)) in
    let (q, found) = has_found p store (k p (has_first p r refs)) in
    (
      record { page = q; residency = r } ∷ rest,
      resolve_refs_cons id p r q store refs rest found e,
      λ x.
          let (split, join) = Refers-cons p r q store refs x d.0 found in
          (
            λ m. elim (Memᴰ.cases_cons m) [
              | inl e ↦ join (inl e)
              | inr n ↦ join (inr ((below x).0 n))
            ],
            λ h. elim (split h) [ inl e ↦ Memᴰ.head e | inr g ↦ Memᴰ.tail ((below x).1 g) ],
          ),
    )

resolve_found :
    (m : ContextManager) (id : String) (i : ImageRecord) (pages : List ResolvedPage)
    → Dict.get id m.images ≡ some i
    → resolve_refs i.id m.pages i.refs ≡ ok pages
    → resolve id m ≡ ok (order_resolved_pages pages)
unfolding resolve
resolve_found m id i pages found e = rw (project, found, resolve_image, e) refl

working_set_found :
    (m : ContextManager) (id : String) (i : ImageRecord) (pages : List ResolvedPage)
    → Dict.get id m.images ≡ some i
    → resolve_refs i.id m.pages i.refs ≡ ok pages
    → working_set id m
      ≡ ok (record {
        image_id = i.id;
        generation = i.generation;
        pages = resident (order_resolved_pages pages);
        estimated_tokens = total_tokens (resident (order_resolved_pages pages));
      })
unfolding working_set
working_set_found m id i pages found e =
    rw (project, found, build_working_set, resolve_image, e) refl

resident-Memᴰ :
    (x : ResolvedPage) (pages : List ResolvedPage)
    → Memᴰ x (resident pages) ↔ (Memᴰ x pages × (is_resident x.residency ≡ true))
unfolding resident
resident-Memᴰ x [] = (λ m. absurd (Memᴰ.not-nil m), λ h. h.0)
resident-Memᴰ x (a ∷ pages) =
    let below = resident-Memᴰ x pages in
    elim (Bool-cases (is_resident a.residency)) [
      | inl t ↦ rw t (
        λ m. elim (Memᴰ.cases_cons m) [
          | inl e ↦ (Memᴰ.head e, ap (λ (y : ResolvedPage). is_resident y.residency) e ∙ t)
          | inr n ↦ (Memᴰ.tail (below.0 n).0, (below.0 n).1)
        ],
        λ (m, h). elim (Memᴰ.cases_cons m) [
          | inl e ↦ Memᴰ.head e
          | inr n ↦ Memᴰ.tail (below.1 (n, h))
        ],
      )
      | inr f ↦ rw f (
        λ m. (Memᴰ.tail (below.0 m).0, (below.0 m).1),
        λ (m, h). elim (Memᴰ.cases_cons m) [
          | inl e ↦ absurd (ground (arith, ap (λ (y : ResolvedPage). is_resident y.residency) e))
          | inr n ↦ below.1 (n, h)
        ],
      )
    ]

is_resident_lem : (r : Residency) → (is_resident r ≡ true) ↔ ((r ≡ pinned) ⊎ (r ≡ hot))
is_resident_lem pinned = (λ h. inl refl, λ c. refl)
is_resident_lem hot = (λ h. inr refl, λ c. refl)
is_resident_lem cold = (λ h. absurd (ground arith), λ c. absurd (ground arith))
is_resident_lem evicted = (λ h. absurd (ground arith), λ c. absurd (ground arith))

-- Where the invariant holds, every image that is there resolves: to the pages that its table refers
-- to, each with its residency and no other, where of one page and the next the kind comes earlier, or
-- at the same place and the id is not greater.
pub resolve_lem :
    (m : ContextManager) (id : String) (i : ImageRecord)
    → Inv m
    → Dict.get id m.images ≡ some i
    → (pages : List ResolvedPage) × (resolve id m ≡ ok pages)
      × IsOrdered pages
      × ((x : ResolvedPage) → Memᴰ x pages ↔ Refers m.pages i.refs x)
resolve_lem m id i v found =
    let (pages, e, entries) =
      resolve_refs_lem i.id m.pages i.refs (v.distinct id i found)
        (λ p h. v.known id i p found h) in
    (
      order_resolved_pages pages,
      resolve_found m id i pages found e,
      order_resolved_pages-IsOrdered pages,
      λ x.
          let sorted = order_resolved_pages-Memᴰ x pages in
          (λ n. (entries x).0 (sorted.0 n), λ h. sorted.1 ((entries x).1 h)),
    )

-- Where the invariant holds, every image that is there has a working set: the pages that its table
-- refers to as pinned or hot and no other, with the sum of their tokens.
pub working_set_lem :
    (m : ContextManager) (id : String) (i : ImageRecord)
    → Inv m
    → Dict.get id m.images ≡ some i
    → (w : WorkingSetSnapshot) × (working_set id m ≡ ok w)
      × (w.estimated_tokens ≡ total_tokens w.pages)
      × ((x : ResolvedPage)
          → Memᴰ x w.pages
            ↔ (Refers m.pages i.refs x × ((x.residency ≡ pinned) ⊎ (x.residency ≡ hot))))
working_set_lem m id i v found =
    let (pages, e, entries) =
      resolve_refs_lem i.id m.pages i.refs (v.distinct id i found)
        (λ p h. v.known id i p found h) in
    (
      _,
      working_set_found m id i pages found e,
      refl,
      λ x.
          let sorted = order_resolved_pages-Memᴰ x pages in
          let stays = resident-Memᴰ x (order_resolved_pages pages) in
          (
            λ n. (
              (entries x).0 (sorted.0 (stays.0 n).0),
              (is_resident_lem x.residency).0 (stays.0 n).1,
            ),
            λ (h, t). stays.1 (sorted.1 ((entries x).1 h), (is_resident_lem x.residency).1 t),
          ),
    )
