-- ===== src/Broker/Checks.antt =====
-- The tests of an authorisation: `authorise`, `matchResource` and `checkScope` of
-- packages/kernel/src/capability/broker.ts.
use consisten_cy.Base.{
  ℕ, String, Bool, true, false, not, ◌&&◌, Option, none, some, List, [], ◌∷◌, ◌==◌, leb,
  if◌then◌else◌, ite, string_dec,
}
use consisten_cy.Base.Dict.{is_some}
use consisten_cy.Identity.{Resource, ResourceScope, Text}
use consisten_cy.Identity.Paths.{normalise_resource_path}
use consisten_cy.Capability.{
  DenyReason, action_eq, subject_mismatch, run_mismatch, action_mismatch, resource_mismatch,
  scope_violation,
}
use consisten_cy.Broker.Data.{CapabilityRecord, AuthoriseRequest}

abbrev mismatch_unless : Bool → Option DenyReason
mismatch_unless true = none
mismatch_unless false = some resource_mismatch

abbrev pub same : String → String → Bool
same a b = ite (string_dec a b) true false

abbrev pub same_pull : Option ℕ → Option ℕ → Bool
same_pull none none = true
same_pull none (some m) = false
same_pull (some n) none = false
same_pull (some n) (some m) = n == m

unfoldable pub match_resource : Resource → Resource → Option DenyReason
match_resource (Resource.repository id) (Resource.repository wanted) =
    mismatch_unless (same wanted id)
match_resource (Resource.snapshot repository_id sha) (Resource.snapshot wanted wanted_sha) =
    mismatch_unless (same wanted repository_id && same wanted_sha sha)
match_resource (Resource.evidence run_id) (Resource.evidence wanted) =
    mismatch_unless (same wanted run_id)
match_resource (Resource.workspace run_id) (Resource.workspace wanted) =
    mismatch_unless (same wanted run_id)
match_resource (Resource.github_publish repository_id pull)
      (Resource.github_publish wanted wanted_pull) =
    if not (same wanted repository_id)
    then some resource_mismatch
    else if is_some pull && not (same_pull wanted_pull pull)
    then some resource_mismatch
    else none
match_resource (Resource.llm provider) (Resource.llm wanted) =
    mismatch_unless (same wanted provider)
match_resource (Resource.ast snapshot_id) (Resource.ast wanted) =
    mismatch_unless (same wanted snapshot_id)
match_resource Resource.audit Resource.audit = none
match_resource _ _ = some resource_mismatch

-- `if (!denyReason && ...)`: a later test counts only if the earlier ones deny nothing.
abbrev pub first_of : Option DenyReason → Option DenyReason → Option DenyReason
first_of none next = next
first_of (some reason) next = some reason

abbrev pub deny_if : Bool → DenyReason → Option DenyReason
deny_if true reason = some reason
deny_if false reason = none

abbrev pub has_expired : ℕ → Option ℕ → Bool
has_expired now none = false
has_expired now (some expires_at) = leb expires_at now

-- An empty text is falsy.
abbrev pub is_truthy : Option String → Bool
is_truthy none = false
is_truthy (some s) = not (same s "")

-- The resource is run-scoped, of the same kind on both sides, and the capability is for another run.
abbrev pub is_for_other_run : Option String → Resource → Resource → Bool
is_for_other_run none wanted held = false
is_for_other_run (some run_id) (Resource.evidence wanted) (Resource.evidence held) =
    not (same held run_id)
is_for_other_run (some run_id) (Resource.workspace wanted) (Resource.workspace held) =
    not (same held run_id)
is_for_other_run (some run_id) wanted held = false

abbrev pub other_run : CapabilityRecord → AuthoriseRequest → Bool
other_run c request =
    is_some c.scope
    && is_truthy request.principal.run_id
    && is_for_other_run request.principal.run_id request.resource c.resource

abbrev pub sha_violated : Option String → Option String → Bool
sha_violated none wanted = false
sha_violated (some sha) none = true
sha_violated (some sha) (some wanted) = not (same sha wanted)

module _ (minimatch : Text → Text → Bool) where
  -- `patterns.some(pattern => minimatch(path, pattern))`.
  unfoldable pub matches_some : Text → List Text → Bool
  matches_some path [] = false
  matches_some path (pattern ∷ patterns) =
      if minimatch path pattern then true else matches_some path patterns

  abbrev pub path_allowed : List Text → Option Text → Bool
  path_allowed patterns none = false
  path_allowed patterns (some normalised) = matches_some normalised patterns

  abbrev pub paths_violated : Option (List Text) → Option Text → Bool
  paths_violated none wanted = false
  paths_violated (some patterns) none = true
  paths_violated (some patterns) (some path) =
      not (path_allowed patterns (normalise_resource_path path))

  abbrev pub check_scope : Option ResourceScope → AuthoriseRequest → Option DenyReason
  check_scope none request = none
  check_scope (some scope) request =
      if sha_violated scope.sha request.sha
      then some scope_violation
      else if paths_violated scope.paths request.path
      then some scope_violation
      else none

  -- The tests 2 to 7, on a record that is there.
  unfoldable pub check_record : ℕ → AuthoriseRequest → CapabilityRecord → Option DenyReason
  check_record now request c = first_of (deny_if c.revoked DenyReason.revoked) (
      first_of (deny_if (has_expired now c.expires_at) DenyReason.expired) (
        first_of (deny_if (not (same c.subject request.principal.id)) subject_mismatch) (
          first_of (deny_if (other_run c request) run_mismatch) (
            first_of (deny_if (not (action_eq c.action request.action)) action_mismatch) (
              first_of (match_resource c.resource request.resource)
                (check_scope c.scope request))))))
