-- ===== src/Broker/Grant.antt =====
-- What a grant means, apart from the order of the tests in `authorise` of
-- packages/kernel/src/capability/broker.ts.
use consisten_cy.Base.{
  ℕ, ◌<◌, ◌≡◌, ◌↔◌, ◌⊎◌, inl, inr, String, Bool, true, false, not, Option, none, some, List, [],
  ◌∷◌, arith, Option-cases,
}
use consisten_cy.Identity.{Resource, ResourceScope, Text}
use consisten_cy.Identity.Paths.{normalise_resource_path}
use consisten_cy.Capability.{DenyReason, Action, action_eq}
use consisten_cy.Broker.Data.{CapabilityRecord, AuthoriseRequest}
use consisten_cy.Broker.Checks.{
  match_resource, has_expired, is_truthy, other_run, matches_some, sha_violated, paths_violated,
  check_scope, check_record, first_of, deny_if, same,
}

-- A resource held covers a resource wanted: they are the same, but for a pull request that the one
-- held leaves open.
abbrev pub Covers : Resource → Resource → Type 0
Covers (Resource.repository id) (Resource.repository wanted) = wanted ≡ id
Covers (Resource.snapshot id sha) (Resource.snapshot wanted wanted_sha) =
    (wanted ≡ id) × (wanted_sha ≡ sha)
Covers (Resource.evidence run_id) (Resource.evidence wanted) = wanted ≡ run_id
Covers (Resource.workspace run_id) (Resource.workspace wanted) = wanted ≡ run_id
Covers (Resource.github_publish id pull) (Resource.github_publish wanted wanted_pull) =
    (wanted ≡ id) × ((pull ≡ none) ⊎ (wanted_pull ≡ pull))
Covers (Resource.llm provider) (Resource.llm wanted) = wanted ≡ provider
Covers (Resource.ast id) (Resource.ast wanted) = wanted ≡ id
Covers Resource.audit Resource.audit = Unit
Covers _ _ = ⊥

match_resource_lem :
    (held wanted : Resource) → (match_resource held wanted ≡ none) ↔ Covers held wanted
unfolding match_resource
match_resource_lem held wanted = ground arith

-- What is wanted belongs to the run, if it is evidence or a workspace.
abbrev pub IsOfRun : Option String → Resource → Type 0
IsOfRun (some run_id) (Resource.evidence wanted) = wanted ≡ run_id
IsOfRun (some run_id) (Resource.workspace wanted) = wanted ≡ run_id
IsOfRun _ _ = Unit

-- A principal with a run uses a scoped capability on that run alone.
abbrev pub InRun : Option ResourceScope → AuthoriseRequest → Type 0
InRun scope request =
    (scope ≡ none)
    ⊎ ((is_truthy request.principal.run_id ≡ false)
        ⊎ IsOfRun request.principal.run_id request.resource)

abbrev pub IsAhead : ℕ → Option ℕ → Type 0
IsAhead now none = Unit
IsAhead now (some expires_at) = now < expires_at

sha_violated_lem :
    (pinned wanted : Option String)
    → (sha_violated pinned wanted ≡ false) ↔ ((pinned ≡ none) ⊎ (wanted ≡ pinned))
sha_violated_lem pinned wanted = ground arith

other_run-InRun :
    (c : CapabilityRecord) (request : AuthoriseRequest)
    → Covers c.resource request.resource
    → (other_run c request ≡ false) ↔ InRun c.scope request
other_run-InRun c request covers = ground arith

action_eq_lem : (a b : Action) → (action_eq a b ≡ true) ↔ (a ≡ b)
action_eq_lem a b = ground arith

pub has_expired_lem : (now : ℕ) (t : Option ℕ) → (has_expired now t ≡ false) ↔ IsAhead now t
has_expired_lem now t = ground arith

first_of-none : (a b : Option DenyReason) → (first_of a b ≡ none) ↔ ((a ≡ none) × (b ≡ none))
first_of-none a b = ground arith

deny_if-none : (b : Bool) (r : DenyReason) → (deny_if b r ≡ none) ↔ (b ≡ false)
deny_if-none b r = ground arith

not-same-false : (a b : String) → (not (same a b) ≡ false) ↔ (a ≡ b)
not-same-false a b = ground arith

not-action_eq-false : (a b : Action) → (not (action_eq a b) ≡ false) ↔ (a ≡ b)
not-action_eq-false a b = ground arith

module _ (minimatch : Text → Text → Bool) where
  -- Some pattern admits the path.
  abbrev pub Admits : List Text → Text → Type 0
  Admits [] path = ⊥
  Admits (pattern ∷ patterns) path = (minimatch path pattern ≡ true) ⊎ Admits patterns path

  abbrev pub InPaths : Option (List Text) → Option Text → Type 0
  InPaths none wanted = Unit
  InPaths (some patterns) wanted =
      (raw : Text) × (path : Text) × (wanted ≡ some raw)
      × (normalise_resource_path raw ≡ some path)
      × Admits patterns path

  abbrev pub InScope : Option ResourceScope → AuthoriseRequest → Type 0
  InScope none request = Unit
  InScope (some scope) request =
      ((scope.sha ≡ none) ⊎ (request.sha ≡ scope.sha)) × InPaths scope.paths request.path

  pub record Granted (now : ℕ) (request : AuthoriseRequest) (c : CapabilityRecord) : Type 0 where
    pub live : c.revoked ≡ false
    pub ahead : IsAhead now c.expires_at
    pub owner : c.subject ≡ request.principal.id
    pub in_run : InRun c.scope request
    pub action : c.action ≡ request.action
    pub covers : Covers c.resource request.resource
    pub in_scope : InScope c.scope request

  matches_some-Admits :
      (path : Text) (patterns : List Text)
      → (matches_some minimatch path patterns ≡ true) ↔ Admits patterns path
  unfolding matches_some
  matches_some-Admits path [] = ground arith
  matches_some-Admits path (pattern ∷ patterns) = ground (arith, matches_some-Admits path patterns)

  paths_violated-InPaths :
      (patterns : Option (List Text)) (wanted : Option Text)
      → (paths_violated minimatch patterns wanted ≡ false) ↔ InPaths patterns wanted
  paths_violated-InPaths none wanted = ground arith
  paths_violated-InPaths (some patterns) none = ground arith
  paths_violated-InPaths (some patterns) (some raw) =
      elim (Option-cases (normalise_resource_path raw)) [
        | inl e ↦ rw e (ground arith)
        | inr (path, e) ↦ ground (arith, matches_some-Admits path patterns)
      ]

  check_scope-InScope :
      (scope : Option ResourceScope) (request : AuthoriseRequest)
      → (check_scope minimatch scope request ≡ none) ↔ InScope scope request
  check_scope-InScope none request = ground arith
  check_scope-InScope (some scope) request = ground (
    arith,
    sha_violated_lem scope.sha request.sha,
    paths_violated-InPaths scope.paths request.path,
  )

  -- The tests deny nothing exactly if the record grants the request.
  pub check_record-Granted :
      (now : ℕ) (request : AuthoriseRequest) (c : CapabilityRecord)
      → (check_record minimatch now request c ≡ none) ↔ Granted now request c
  unfolding check_record
  check_record-Granted now request c = (
    (λ h.
        let (live, h2) = (first_of-none _ _).0 h in
        let (ahead, h3) = (first_of-none _ _).0 h2 in
        let (owner, h4) = (first_of-none _ _).0 h3 in
        let (run, h5) = (first_of-none _ _).0 h4 in
        let (action, h6) = (first_of-none _ _).0 h5 in
        let (covers, scope) = (first_of-none _ _).0 h6 in
        let covered = (match_resource_lem c.resource request.resource).0 covers in
        record {
          live = (deny_if-none _ _).0 live;
          ahead = (has_expired_lem now c.expires_at).0 ((deny_if-none _ _).0 ahead);
          owner = (not-same-false _ _).0 ((deny_if-none _ _).0 owner);
          in_run = (other_run-InRun c request covered).0 ((deny_if-none _ _).0 run);
          action = (not-action_eq-false _ _).0 ((deny_if-none _ _).0 action);
          covers = covered;
          in_scope = (check_scope-InScope c.scope request).0 scope;
        }),
    λ g. (first_of-none _ _).1 (
      (deny_if-none _ _).1 g.live,
      (first_of-none _ _).1 (
        (deny_if-none _ _).1 ((has_expired_lem now c.expires_at).1 g.ahead),
        (first_of-none _ _).1 (
          (deny_if-none _ _).1 ((not-same-false _ _).1 g.owner),
          (first_of-none _ _).1 (
            (deny_if-none _ _).1 ((other_run-InRun c request g.covers).1 g.in_run),
            (first_of-none _ _).1 (
              (deny_if-none _ _).1 ((not-action_eq-false _ _).1 g.action),
              (first_of-none _ _).1 (
                (match_resource_lem c.resource request.resource).1 g.covers,
                (check_scope-InScope c.scope request).1 g.in_scope,
              ),
            ),
          ),
        ),
      ),
    ),
  )
