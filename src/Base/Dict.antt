-- ===== src/Base/Dict.antt =====
-- The language's `Map` with text keys: entries in the order of insertion. Writing a key that is
-- there keeps its place.
unfoldable use consisten_cy.Base.Tests.{string_dec}
use Prim.Native.Nat.{ℕ, suc, ◌+◌, ◌≤◌}
use Prim.Native.String.{String}
use mathlib.Core.Path.{◌≡◌, refl}
use mathlib.Core.Logic.{ite}
use mathlib.Core.Bool.{Bool, true, false}
use mathlib.Core.Option.{Option, none, some}
use mathlib.Core.List.{List, [], ◌∷◌}
use native.Mathlib.Omega.{arith}

abbrev pub Dict {ℓ} : Type ℓ → Type ℓ
Dict V = List (String × V)

module _ {ℓ} {V : Type ℓ} where
  unfoldable pub get : String → Dict V → Option V
  get k [] = none
  get k ((j, v) ∷ m) = ite (string_dec j k) (some v) (get k m)

  unfoldable pub set : String → V → Dict V → Dict V
  set k v [] = (k, v) ∷ []
  set k v ((j, w) ∷ m) = ite (string_dec j k) ((j, v) ∷ m) ((j, w) ∷ set k v m)

  unfoldable pub delete : String → Dict V → Dict V
  delete k [] = []
  delete k ((j, w) ∷ m) = ite (string_dec j k) m ((j, w) ∷ delete k m)

  abbrev pub is_some : Option V → Bool
  is_some none = false
  is_some (some v) = true

  unfoldable pub has : String → Dict V → Bool
  unfolding get
  has k m = is_some (get k m)

  unfoldable pub values : Dict V → List V
  values [] = []
  values ((j, v) ∷ m) = v ∷ values m

  unfoldable pub size : Dict V → ℕ
  size [] = 0
  size ((j, v) ∷ m) = suc (size m)

  -- Each key stands once.
  abbrev pub HasDistinctKeys : Dict V → Type ℓ
  HasDistinctKeys [] = Unit
  HasDistinctKeys ((j, v) ∷ m) = (get j m ≡ none) × HasDistinctKeys m

  pub get-set :
      (k j : String) (v : V) (m : Dict V)
      → get j (set k v m) ≡ ite (string_dec k j) (some v) (get j m)
  unfolding get set
  get-set k j v [] = refl
  get-set k j v ((i, w) ∷ m) = ground (arith, get-set k j v m)

  pub get-delete :
      (k j : String) (m : Dict V)
      → HasDistinctKeys m
      → get j (delete k m) ≡ ite (string_dec k j) none (get j m)
  unfolding get delete
  get-delete k j [] h = ground arith
  get-delete k j ((i, w) ∷ m) h = ground (arith, get-delete k j m h.1)

  pub set-HasDistinctKeys :
      (k : String) (v : V) (m : Dict V) → HasDistinctKeys m → HasDistinctKeys (set k v m)
  unfolding get set
  set-HasDistinctKeys k v [] h = ground arith
  set-HasDistinctKeys k v ((i, w) ∷ m) h =
      ground (arith, get-set k i v m, set-HasDistinctKeys k v m h.1)

  pub delete-HasDistinctKeys :
      (k : String) (m : Dict V) → HasDistinctKeys m → HasDistinctKeys (delete k m)
  unfolding get delete
  delete-HasDistinctKeys k [] h = ground arith
  delete-HasDistinctKeys k ((i, w) ∷ m) h =
      ground (arith, get-delete k i m h.1, delete-HasDistinctKeys k m h.1)

  -- The sum of a measure over the values, and the measure of what a key holds.
  unfoldable pub total : (V → ℕ) → Dict V → ℕ
  total f [] = 0
  total f ((j, v) ∷ m) = f v + total f m

  abbrev pub measure : (V → ℕ) → Option V → ℕ
  measure f none = 0
  measure f (some v) = f v

  pub total-set :
      (f : V → ℕ) (k : String) (v : V) (m : Dict V)
      → total f (set k v m) + measure f (get k m) ≡ total f m + f v
  unfolding total get set
  total-set f k v [] = omega arith
  total-set f k v ((i, w) ∷ m) = ground (arith, total-set f k v m)

  pub total-delete :
      (f : V → ℕ) (k : String) (m : Dict V) → total f (delete k m) + measure f (get k m) ≡ total f m
  unfolding total get delete
  total-delete f k [] = omega arith
  total-delete f k ((i, w) ∷ m) = ground (arith, total-delete f k m)

  pub measure-le-total : (f : V → ℕ) (k : String) (m : Dict V) → measure f (get k m) ≤ total f m
  measure-le-total f k m = omega (arith, total-delete f k m)

  pub total-le-set :
      (f : V → ℕ) (k : String) (v : V) (m : Dict V) → total f (set k v m) ≤ total f m + f v
  total-le-set f k v m = omega (arith, total-set f k v m)

  -- A write of a new key is undone by its deletion.
  pub delete-set : (k : String) (v : V) (m : Dict V) → get k m ≡ none → delete k (set k v m) ≡ m
  unfolding get set delete
  delete-set k v [] h = ground arith
  delete-set k v ((j, w) ∷ m) h = ground (arith, delete-set k v m)

  pub delete-absent : (k : String) (m : Dict V) → get k m ≡ none → delete k m ≡ m
  unfolding get delete
  delete-absent k [] h = refl
  delete-absent k ((j, w) ∷ m) h = ground (arith, delete-absent k m)

  -- Writing what is there changes nothing.
  pub set-get : (k : String) (v : V) (m : Dict V) → get k m ≡ some v → set k v m ≡ m
  unfolding get set
  set-get k v [] h = ground arith
  set-get k v ((j, w) ∷ m) h = ground (arith, set-get k v m)

  -- Of two writes the later one counts.
  pub set-set : (k : String) (v w : V) (m : Dict V) → set k v (set k w m) ≡ set k v m
  unfolding set
  set-set k v w [] = ground arith
  set-set k v w ((j, u) ∷ m) = ground (arith, set-set k v w m)
