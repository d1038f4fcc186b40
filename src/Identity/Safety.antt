-- ===== src/Identity/Safety.antt =====
-- What `normaliseResourcePath` of packages/kernel/src/identity/resource.ts lets through.
use consisten_cy.Base.{
  ℕ, ◌≡◌, ◌≢◌, refl, ◌∙◌, ap, subst, false, some, List, [], ◌∷◌, ◌++◌, ◌==◌, map, All, includes,
  arith, Bool-cases, inl, inr,
}
use consisten_cy.Identity.{Text}
use consisten_cy.Identity.Paths.{
  split, join, prepend, forward, has_parent, drop_here, is_here, normalise_resource_path,
}

abbrev pub NotSlash : ℕ → Type 0
NotSlash c = (c == 47) ≡ false

-- The characters of the segments.
prepend-All :
    (P : ℕ → Type 0) (c : ℕ) (segments : List Text)
    → P c
    → All (All P) segments
    → All (All P) (prepend c segments)
prepend-All P c [] p h = ((p, tt), tt)
prepend-All P c (s ∷ segments) p h = ((p, h.0), h.1)

split-All : (P : ℕ → Type 0) (text : Text) → All P text → All (All P) (split text)
unfolding split
split-All P [] h = (tt, tt)
split-All P (c ∷ rest) h = elim (Bool-cases (c == 47)) [
  | inl e ↦ rw e (tt, split-All P rest h.1)
  | inr e ↦ rw e (prepend-All P c (split rest) h.0 (split-All P rest h.1))
]

split-NotSlash : (text : Text) → All (All NotSlash) (split text)
unfolding split
split-NotSlash [] = (tt, tt)
split-NotSlash (c ∷ rest) = elim (Bool-cases (c == 47)) [
  | inl e ↦ rw e (tt, split-NotSlash rest)
  | inr e ↦ rw e (prepend-All NotSlash c (split rest) e (split-NotSlash rest))
]

append-All : (P : ℕ → Type 0) (xs ys : Text) → All P xs → All P ys → All P (xs ++ ys)
append-All P [] ys h k = k
append-All P (x ∷ xs) ys h k = (h.0, append-All P xs ys h.1 k)

join-All :
    (P : ℕ → Type 0) (segments : List Text) → P 47 → All (All P) segments → All P (join segments)
unfolding join
join-All P [] p h = tt
join-All P (s ∷ []) p h = h.0
join-All P (s ∷ t ∷ segments) p h = append-All P s _ h.0 (p, join-All P (t ∷ segments) p h.1)

split-append : (s rest : Text) → All NotSlash s → split (s ++ 47 ∷ rest) ≡ s ∷ split rest
unfolding split
split-append [] rest h = refl
split-append (c ∷ s) rest h = rw (h.0, split-append s rest h.1) refl

split_segment : (s : Text) → All NotSlash s → split s ≡ s ∷ []
unfolding split
split_segment [] h = refl
split_segment (c ∷ s) h = rw (h.0, split_segment s h.1) refl

-- Segments without a slash are read back from the text that joins them.
pub split-join :
    (s : Text) (segments : List Text)
    → All (All NotSlash) (s ∷ segments)
    → split (join (s ∷ segments)) ≡ s ∷ segments
unfolding join
split-join s [] h = split_segment s h.0
split-join s (t ∷ segments) h =
    split-append s (join (t ∷ segments)) h.0 ∙ ap (λ r. s ∷ r) (split-join t segments h.1)

-- No NUL and no backslash.
abbrev pub IsPlain : ℕ → Type 0
IsPlain c = (c ≢ 0) × (c ≢ 92)

forward-IsPlain : (raw : Text) → includes ◌==◌ 0 raw ≡ false → All IsPlain (map forward raw)
forward-IsPlain [] h = tt
forward-IsPlain (c ∷ raw) h = ((ground arith, ground arith), forward-IsPlain raw (ground arith))

drop_here-All :
    (P : Text → Type 0) (segments : List Text) → All P segments → All P (drop_here segments)
drop_here-All P [] h = tt
drop_here-All P (s ∷ segments) h = elim (Bool-cases (is_here s)) [
  | inl e ↦ rw e h.1
  | inr e ↦ rw e h
]

drop_here_parent :
    (segments : List Text) → has_parent segments ≡ false → has_parent (drop_here segments) ≡ false
unfolding has_parent
drop_here_parent [] h = refl
drop_here_parent (s ∷ segments) h = ground arith

joined_parent :
    (segments : List Text)
    → All (All NotSlash) segments
    → has_parent segments ≡ false
    → has_parent (split (join segments)) ≡ false
unfolding join split has_parent
joined_parent [] h k = refl
joined_parent (s ∷ segments) h k = ap has_parent (split-join s segments h) ∙ k

-- A path that is let through has no `..` among its segments, no NUL and no backslash.
pub normalise_lem :
    (raw path : Text)
    → normalise_resource_path raw ≡ some path
    → (has_parent (split path) ≡ false) × All IsPlain path
unfolding normalise_resource_path
normalise_lem raw path h =
    let slashed = map forward raw in
    let segments = drop_here (split slashed) in
    let named : join segments ≡ path = ground arith in
    let no_nul : includes ◌==◌ 0 raw ≡ false = ground arith in
    let no_parent : has_parent (split slashed) ≡ false = ground arith in
    subst (λ t. (has_parent (split t) ≡ false) × All IsPlain t) named
      (
        joined_parent segments
            (drop_here-All (All NotSlash) (split slashed) (split-NotSlash slashed))
            (drop_here_parent (split slashed) no_parent),
        join-All IsPlain segments (λ e. cc, λ e. cc)
            (drop_here-All (All IsPlain) (split slashed)
              (split-All IsPlain slashed (forward-IsPlain raw no_nul))),
      )
