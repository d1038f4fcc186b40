-- ===== src/Identity/Tests.antt =====
-- Runs of `normaliseResourcePath` of packages/kernel/src/identity/resource.ts.
use consisten_cy.Base.{◌≡◌, refl, false, none, some, [], ◌∷◌, All}
use consisten_cy.Identity.{Text}
use consisten_cy.Identity.Paths.{normalise_resource_path, split, join, has_parent}
use consisten_cy.Identity.Safety.{IsPlain, normalise_lem}

-- `./a\b`, which is let through as `a/b`.
abbrev raw : Text
raw = 46 ∷ 47 ∷ 97 ∷ 92 ∷ 98 ∷ []

raw_normalised : normalise_resource_path raw ≡ some (97 ∷ 47 ∷ 98 ∷ [])
unfolding normalise_resource_path split join has_parent
raw_normalised = refl

normalise_lem_example :
    (has_parent (split (97 ∷ 47 ∷ 98 ∷ [])) ≡ false) × All IsPlain (97 ∷ 47 ∷ 98 ∷ [])
normalise_lem_example = normalise_lem raw (97 ∷ 47 ∷ 98 ∷ []) raw_normalised

-- `a/../b` is refused.
parent_refused : normalise_resource_path (97 ∷ 47 ∷ 46 ∷ 46 ∷ 47 ∷ 98 ∷ []) ≡ none
unfolding normalise_resource_path split join has_parent
parent_refused = refl

-- `.//a` is let through as the absolute path `/a`.
absolute_result : normalise_resource_path (46 ∷ 47 ∷ 47 ∷ 97 ∷ []) ≡ some (47 ∷ 97 ∷ [])
unfolding normalise_resource_path split join has_parent
absolute_result = refl
