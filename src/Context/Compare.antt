-- ===== src/Context/Compare.antt =====
-- The comparison of pages in packages/kernel/src/context/working-set.ts, with its arguments
-- exchanged.
use Prim.Native.Nat.{Ordering, zero}
use Prim.Native.Nat as Nat
use Prim.Native.Nat.compare as compare_ℕ
use Prim.Native.Char.{code}
use Prim.Native.String as Text
use Prim.Native.String.{[], ◌∷◌}
use Prim.Native.String.compare as compare_text
use consisten_cy.Base.{ℕ, suc, ◌≡◌, refl, String, Bool, true, false, arith}
use consisten_cy.Context.Data.{ResolvedPage, context_page_kind_precedence}
use consisten_cy.Context.WorkingSet.{compare_by, compare_resolved_pages, is_after}

-- The answer with the arguments exchanged.
abbrev swap : Ordering → Ordering
swap Ordering.lt = Ordering.gt
swap Ordering.eq = Ordering.eq
swap Ordering.gt = Ordering.lt

compare-swap : (m n : ℕ) → Nat.compare n m ≡ swap (Nat.compare m n)
compare-swap zero zero = rw compare_ℕ.zero-zero refl
compare-swap zero (suc n) = rw (compare_ℕ.zero-suc n, compare_ℕ.suc-zero n) refl
compare-swap (suc m) zero = rw (compare_ℕ.zero-suc m, compare_ℕ.suc-zero m) refl
compare-swap (suc m) (suc n) = rw (compare_ℕ.suc-suc m n, compare_ℕ.suc-suc n m) (compare-swap m n)

then-swap : (a b : Ordering) → Text.then (swap a) (swap b) ≡ swap (Text.then a b)
then-swap Ordering.lt b = refl
then-swap Ordering.eq b = refl
then-swap Ordering.gt b = refl

text_compare-swap : (s t : String) → Text.compare t s ≡ swap (Text.compare s t)
text_compare-swap [] [] = rw compare_text.nil-nil refl
text_compare-swap [] (d ∷ t) = rw (compare_text.nil-cons d t, compare_text.cons-nil d t) refl
text_compare-swap (c ∷ s) [] = rw (compare_text.nil-cons c s, compare_text.cons-nil c s) refl
text_compare-swap (c ∷ s) (d ∷ t) =
    rw
      (
        compare_text.cons-cons c d s t,
        compare_text.cons-cons d c t s,
        compare-swap (code c) (code d),
        text_compare-swap s t,
      )
      (then-swap _ _)

compare_by-swap : (a b : Ordering) → compare_by (swap a) (swap b) ≡ swap (compare_by a b)
compare_by-swap Ordering.lt b = refl
compare_by-swap Ordering.eq b = refl
compare_by-swap Ordering.gt b = refl

compare_resolved_pages-swap :
    (a b : ResolvedPage) → compare_resolved_pages b a ≡ swap (compare_resolved_pages a b)
compare_resolved_pages-swap a b =
    rw
      (
        compare-swap (context_page_kind_precedence a.page.kind)
            (context_page_kind_precedence b.page.kind),
        text_compare-swap a.page.id b.page.id,
      )
      (compare_by-swap _ _)

-- Of two entries at most one is after the other.
pub is_after-swap : (a b : ResolvedPage) → is_after a b ≡ true → is_after b a ≡ false
is_after-swap a b h =
    go (compare_resolved_pages a b) (compare_resolved_pages b a) (compare_resolved_pages-swap a b) h
  where
    is_gt : Ordering → Bool
    is_gt o = elim o [ Ordering.gt ↦ true | _ ↦ false ]

    go : (o p : Ordering) → p ≡ swap o → is_gt o ≡ true → is_gt p ≡ false
    go Ordering.lt p e h = absurd (ground arith)
    go Ordering.eq p e h = absurd (ground arith)
    go Ordering.gt p e h = rw e refl
