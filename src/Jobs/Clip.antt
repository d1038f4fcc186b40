-- ===== src/Jobs/Clip.antt =====
-- `text.slice(0, n)` of apps/api/src/jobQueue.ts, in characters; they are code units where none needs
-- two of these.
use Prim.Native.Nat.{ℕ, zero, suc}
use Prim.Native.String.{String, [], ◌∷◌}

unfoldable pub take : ℕ → String → String
take zero text = []
take (suc n) [] = []
take (suc n) (c ∷ text) = c ∷ take n text
