-- ===== src/Context/Order.antt =====
-- The order of the pages in packages/kernel/src/context/working-set.ts: the sort keeps its entries,
-- and no entry comes after the next one.
use Prim.Native.Nat as Nat
use Prim.Native.Nat.{Ordering}
use Prim.Native.String as Text
use native.Mathlib.Omega.{compare-lt, compare-eq}
use mathlib.Core.List.{Memᴰ}
use mathlib.Core.List.Memᴰ
use consisten_cy.Base.{
  refl, ap, sym, ◌∙◌, arith, Bool, ◌<◌, ◌⊎◌, ◌≢◌, ◌≡◌, true, false, List, [], ◌∷◌, inl, inr,
  Bool-cases, ◌↔◌,
}
use consisten_cy.Context.Data.{ResolvedPage, context_page_kind_precedence}
use consisten_cy.Context.WorkingSet.{compare_by, is_after, insert, order_resolved_pages}
use consisten_cy.Context.Compare.{is_after-swap}

-- No entry is after the next one.
abbrev IsSorted : List ResolvedPage → Type 0
IsSorted [] = Unit
IsSorted (a ∷ []) = Unit
IsSorted (a ∷ b ∷ pages) = (is_after a b ≡ false) × IsSorted (b ∷ pages)

insert_after-IsSorted :
    (a b : ResolvedPage) (pages : List ResolvedPage)
    → is_after a b ≡ true
    → IsSorted (b ∷ pages)
    → IsSorted (b ∷ insert a pages)
unfolding insert
insert_after-IsSorted a b [] after h = (is_after-swap a b after, tt)
insert_after-IsSorted a b (c ∷ pages) after h = elim (Bool-cases (is_after a c)) [
  | inl t ↦ rw t (h.0, insert_after-IsSorted a c pages t h.1)
  | inr f ↦ rw f (is_after-swap a b after, (f, h.1))
]

insert-IsSorted :
    (a : ResolvedPage) (pages : List ResolvedPage) → IsSorted pages → IsSorted (insert a pages)
unfolding insert
insert-IsSorted a [] h = tt
insert-IsSorted a (b ∷ pages) h = elim (Bool-cases (is_after a b)) [
  | inl t ↦ rw t (insert_after-IsSorted a b pages t h)
  | inr f ↦ rw f (f, h)
]

order_resolved_pages-IsSorted : (pages : List ResolvedPage) → IsSorted (order_resolved_pages pages)
unfolding order_resolved_pages
order_resolved_pages-IsSorted [] = tt
order_resolved_pages-IsSorted (a ∷ pages) =
    insert-IsSorted a (order_resolved_pages pages) (order_resolved_pages-IsSorted pages)

-- The kind comes earlier, or it comes at the same place and the id is not greater.
abbrev pub InOrder : ResolvedPage → ResolvedPage → Type 0
InOrder a b =
    (context_page_kind_precedence a.page.kind < context_page_kind_precedence b.page.kind)
    ⊎ ((context_page_kind_precedence a.page.kind ≡ context_page_kind_precedence b.page.kind)
        × (Text.compare a.page.id b.page.id ≢ Ordering.gt))

-- Each entry and the next are in order.
abbrev pub IsOrdered : List ResolvedPage → Type 0
IsOrdered [] = Unit
IsOrdered (a ∷ []) = Unit
IsOrdered (a ∷ b ∷ pages) = InOrder a b × IsOrdered (b ∷ pages)

is_after-InOrder : (a b : ResolvedPage) → is_after a b ≡ false → InOrder a b
is_after-InOrder a b h =
    go
      (Nat.compare (context_page_kind_precedence a.page.kind)
        (context_page_kind_precedence b.page.kind))
      (Text.compare a.page.id b.page.id) refl refl h
  where
    is_gt : Ordering → Bool
    is_gt o = elim o [ Ordering.gt ↦ true | _ ↦ false ]

    not_after : (p : Ordering) → is_gt p ≡ false → p ≢ Ordering.gt
    not_after p h g = ground (arith, ap is_gt g)

    go :
        (o p : Ordering)
        → Nat.compare
            (context_page_kind_precedence a.page.kind)
            (context_page_kind_precedence b.page.kind)
          ≡ o
        → Text.compare a.page.id b.page.id ≡ p
        → is_gt (compare_by o p) ≡ false
        → InOrder a b
    go Ordering.lt p e f h = inl (compare-lt _ _ e)
    go Ordering.eq p e f h = inr (compare-eq _ _ e, λ g. not_after p h (sym f ∙ g))
    go Ordering.gt p e f h = absurd (ground arith)

IsSorted-IsOrdered : (pages : List ResolvedPage) → IsSorted pages → IsOrdered pages
IsSorted-IsOrdered [] h = tt
IsSorted-IsOrdered (a ∷ []) h = tt
IsSorted-IsOrdered (a ∷ b ∷ pages) h =
    (is_after-InOrder a b h.0, IsSorted-IsOrdered (b ∷ pages) h.1)

-- The result of the sort is in order.
pub order_resolved_pages-IsOrdered :
    (pages : List ResolvedPage) → IsOrdered (order_resolved_pages pages)
order_resolved_pages-IsOrdered pages =
    IsSorted-IsOrdered (order_resolved_pages pages) (order_resolved_pages-IsSorted pages)

Memᴰ-insert :
    (x a : ResolvedPage) (pages : List ResolvedPage) → Memᴰ x (a ∷ pages) → Memᴰ x (insert a pages)
unfolding insert
Memᴰ-insert x a [] m = m
Memᴰ-insert x a (b ∷ pages) m = elim (Bool-cases (is_after a b)) [
  | inr f ↦ rw f m
  | inl t ↦ rw t (elim (Memᴰ.cases_cons m) [
    | inl e ↦ Memᴰ.tail (Memᴰ-insert x a pages (Memᴰ.head e))
    | inr n ↦ elim (Memᴰ.cases_cons n) [
      | inl e ↦ Memᴰ.head e
      | inr k ↦ Memᴰ.tail (Memᴰ-insert x a pages (Memᴰ.tail k))
    ]
  ])
]

insert-Memᴰ :
    (x a : ResolvedPage) (pages : List ResolvedPage) → Memᴰ x (insert a pages) → Memᴰ x (a ∷ pages)
unfolding insert
insert-Memᴰ x a [] = λ m. m
insert-Memᴰ x a (b ∷ pages) = elim (Bool-cases (is_after a b)) [
  | inr f ↦ rw f (λ m. m)
  | inl t ↦ rw t (λ m. elim (Memᴰ.cases_cons m) [
    | inl e ↦ Memᴰ.tail (Memᴰ.head e)
    | inr n ↦ elim (Memᴰ.cases_cons (insert-Memᴰ x a pages n)) [
      | inl e ↦ Memᴰ.head e
      | inr k ↦ Memᴰ.tail (Memᴰ.tail k)
    ]
  ])
]

-- The sort has the entries that it is given and no other.
pub order_resolved_pages-Memᴰ :
    (x : ResolvedPage) (pages : List ResolvedPage)
    → Memᴰ x (order_resolved_pages pages) ↔ Memᴰ x pages
unfolding order_resolved_pages
order_resolved_pages-Memᴰ x [] = (λ m. m, λ m. m)
order_resolved_pages-Memᴰ x (a ∷ pages) =
    let below = order_resolved_pages-Memᴰ x pages in
    (
      λ m. elim (Memᴰ.cases_cons (insert-Memᴰ x a (order_resolved_pages pages) m)) [
        | inl e ↦ Memᴰ.head e
        | inr k ↦ Memᴰ.tail (below.0 k)
      ],
      λ m.
          Memᴰ-insert x a (order_resolved_pages pages)
            (elim (Memᴰ.cases_cons m) [ inl e ↦ Memᴰ.head e | inr k ↦ Memᴰ.tail (below.1 k) ]),
    )
