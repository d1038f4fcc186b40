-- ===== src/Capability.antt =====
-- What a capability covers: packages/kernel/src/capability/types.ts, policy.ts and errors.ts.
use consisten_cy.Base.{ℕ, String, Bool, List, [], ◌∷◌, ◌==◌}
use consisten_cy.Identity.{PrincipalKind, kernel, service, agent, plugin, user, ResourceKind}

pub data Action : Type 0 where
  repo_read repo_search repo_diff repo_write evidence_read evidence_write ast_query llm_invoke :
      Action
  github_publish workspace_read workspace_write audit_read : Action

pub data PrivilegeRing : Type 0 where
  ring0 ring1 ring3 : PrivilegeRing

pub data DenyReason : Type 0 where
  unknown_capability revoked expired subject_mismatch run_mismatch action_mismatch : DenyReason
  resource_mismatch scope_violation budget_exhausted : DenyReason

-- Where the service that performs the action runs.
unfoldable pub service_ring : Action → PrivilegeRing
service_ring repo_write = ring0
service_ring llm_invoke = ring1
service_ring github_publish = ring0
service_ring audit_read = ring0
service_ring _ = ring3

-- The ring at which a principal may be issued a capability for the action.
unfoldable pub capability_issuable_ring : Action → PrivilegeRing
capability_issuable_ring repo_write = ring0
capability_issuable_ring github_publish = ring0
capability_issuable_ring audit_read = ring0
capability_issuable_ring _ = ring3

unfoldable pub ring_allowed_kinds : PrivilegeRing → List PrincipalKind
ring_allowed_kinds ring0 = kernel ∷ []
ring_allowed_kinds ring1 = kernel ∷ service ∷ []
ring_allowed_kinds ring3 = kernel ∷ service ∷ agent ∷ plugin ∷ user ∷ []

-- Equality of the enumerations, by their position.
abbrev kind_rank : PrincipalKind → ℕ
kind_rank kernel = 0
kind_rank service = 1
kind_rank agent = 2
kind_rank plugin = 3
kind_rank user = 4

abbrev pub kind_eq : PrincipalKind → PrincipalKind → Bool
kind_eq a b = kind_rank a == kind_rank b

abbrev action_rank : Action → ℕ
action_rank repo_read = 0
action_rank repo_search = 1
action_rank repo_diff = 2
action_rank repo_write = 3
action_rank evidence_read = 4
action_rank evidence_write = 5
action_rank ast_query = 6
action_rank llm_invoke = 7
action_rank github_publish = 8
action_rank workspace_read = 9
action_rank workspace_write = 10
action_rank audit_read = 11

abbrev pub action_eq : Action → Action → Bool
action_eq a b = action_rank a == action_rank b

-- A descriptor on an agent's record; it grants nothing.
pub record CapabilityRef : Type 0 where
  pub handle_fingerprint : String
  pub action : Action
  pub resource_kind : ResourceKind
