-- ===== src/Identity/Paths.antt =====
-- `normaliseResourcePath` of packages/kernel/src/identity/resource.ts, on UTF-16 code units.
use consisten_cy.Base.{
  ℕ, Bool, true, false, ◌&&◌, ◌||◌, Option, none, some, List, [], ◌∷◌, ◌++◌, ◌==◌, leb, map,
  if◌then◌else◌, includes,
}
use consisten_cy.Identity.{Text}

abbrev slash : ℕ
slash = 47

-- A backslash becomes a slash.
abbrev pub forward : ℕ → ℕ
forward c = if c == 92 then slash else c

abbrev is_letter : ℕ → Bool
is_letter c = (leb 65 c && leb c 90) || (leb 97 c && leb c 122)

-- `/^(?:[A-Za-z]:\/|\/|\/\/)/`.
abbrev pub is_absolute : Text → Bool
is_absolute [] = false
is_absolute (a ∷ []) = a == slash
is_absolute (a ∷ b ∷ []) = a == slash
is_absolute (a ∷ b ∷ c ∷ rest) = (is_letter a && b == 58 && c == slash) || a == slash

-- One more character in front of the first segment.
abbrev pub prepend : ℕ → List Text → List Text
prepend c [] = (c ∷ []) ∷ []
prepend c (s ∷ segments) = (c ∷ s) ∷ segments

-- `text.split("/")`.
unfoldable pub split : Text → List Text
split [] = [] ∷ []
split (c ∷ rest) = if c == slash then [] ∷ split rest else prepend c (split rest)

-- `segments.join("/")`.
unfoldable pub join : List Text → Text
join [] = []
join (s ∷ []) = s
join (s ∷ t ∷ segments) = s ++ slash ∷ join (t ∷ segments)

abbrev pub is_parent : Text → Bool
is_parent (a ∷ b ∷ []) = a == 46 && b == 46
is_parent _ = false

unfoldable pub has_parent : List Text → Bool
has_parent [] = false
has_parent (s ∷ segments) = is_parent s || has_parent segments

abbrev pub is_here : Text → Bool
is_here (a ∷ []) = a == 46
is_here _ = false

-- `segments.filter((seg, i) => !(i === 0 && seg === "."))`.
abbrev pub drop_here : List Text → List Text
drop_here [] = []
drop_here (s ∷ segments) = if is_here s then segments else s ∷ segments

abbrev is_empty : Text → Bool
is_empty [] = true
is_empty (c ∷ rest) = false

-- No path where the code throws.
unfoldable pub normalise_resource_path : Text → Option Text
normalise_resource_path raw =
    if is_empty raw || includes ◌==◌ 0 raw
    then none
    else let slashed = map forward raw in
      if is_absolute slashed
      then none
      else if has_parent (split slashed)
      then none
      else some (join (drop_here (split slashed)))
