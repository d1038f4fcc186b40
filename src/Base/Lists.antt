-- ===== src/Base/Lists.antt =====
-- Lists measured by native numbers, and predicates by recursion.
use Prim.Native.Nat.{ℕ, suc, ◌+◌, ◌-◌}
use Prim.Native.String.{String}
use mathlib.Core.Path.{◌≡◌, refl, subst}
use mathlib.Core.Logic.{ite, ◌≢◌}
use mathlib.Core.Bool.{Bool, false, ◌||◌}
use mathlib.Core.List.{List, [], ◌∷◌, ◌++◌}
use native.Mathlib.Omega.{arith}
unfoldable use consisten_cy.Base.Tests.{string_dec}

module _ {ℓ} {A : Type ℓ} where
  abbrev pub length : List A → ℕ
  length [] = 0
  length (x ∷ xs) = suc (length xs)

  pub length-append : (xs ys : List A) → length (xs ++ ys) ≡ length xs + length ys
  length-append [] ys = omega arith
  length-append (x ∷ xs) ys = omega (arith, length-append xs ys)

-- How often a text stands in a list.
unfoldable pub count : String → List String → ℕ
count a [] = 0
count a (x ∷ xs) = ite (string_dec x a) 1 0 + count a xs

-- `splice(indexOf(a), 1)`: the first occurrence goes.
unfoldable pub erase : String → List String → List String
erase a [] = []
erase a (x ∷ xs) = ite (string_dec x a) xs (x ∷ erase a xs)

pub count-append : (a : String) (xs ys : List String) → count a (xs ++ ys) ≡ count a xs + count a ys
unfolding count
count-append a [] ys = omega arith
count-append a (x ∷ xs) ys = omega (arith, count-append a xs ys)

pub count-snoc :
    (a b : String) (xs : List String)
    → count a (xs ++ b ∷ []) ≡ count a xs + ite (string_dec b a) 1 0
unfolding count
count-snoc a b [] = omega arith
count-snoc a b (x ∷ xs) = omega (arith, count-snoc a b xs)

-- Only the erased text loses an occurrence.
pub count-erase :
    (a b : String) (xs : List String) → count b (erase a xs) ≡ count b xs - ite (string_dec a b) 1 0
unfolding count erase
count-erase a b [] = omega arith
count-erase a b (x ∷ xs) = ground (arith, count-erase a b xs)

pub erase-absent : (a : String) (xs : List String) → count a xs ≡ 0 → erase a xs ≡ xs
unfolding count erase
erase-absent a [] h = refl
erase-absent a (x ∷ xs) h = ground (arith, erase-absent a xs)

-- `list.includes(a)`, with the equality of the elements.
abbrev pub includes {ℓ} : {A : Type ℓ} → (A → A → Bool) → A → List A → Bool
includes eq a [] = false
includes eq a (x ∷ xs) = eq x a || includes eq a xs

-- A predicate of every element.
abbrev pub All {ℓ κ} : {A : Type ℓ} → (A → Type κ) → List A → Type κ
All P [] = Unit
All P (x ∷ xs) = P x × All P xs

pub All-append {ℓ κ} :
    {A : Type ℓ} (P : A → Type κ) (xs ys : List A) → All P xs → All P ys → All P (xs ++ ys)
All-append P [] ys hx hy = hy
All-append P (x ∷ xs) ys hx hy = (hx.0, All-append P xs ys hx.1 hy)

pub All-map {ℓ κ} :
    {A : Type ℓ} {P Q : A → Type κ} → ((x : A) → P x → Q x) → (xs : List A) → All P xs → All Q xs
All-map f [] h = tt
All-map f (x ∷ xs) h = (f x h.0, All-map f xs h.1)

-- What holds of every element holds of one that stands in the list.
pub All-count {κ} :
    (P : String → Type κ) (a : String) (xs : List String) → All P xs → count a xs ≢ 0 → P a
unfolding count
All-count P a [] h e = absurd (e refl)
All-count P a (x ∷ xs) h e = elim (string_dec x a) [
  | yes same ↦ subst P same h.0
  | no other ↦ All-count P a xs h.1 (λ z. e (ground arith))
]
