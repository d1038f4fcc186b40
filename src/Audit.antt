-- ===== src/Audit.antt =====
-- What the kernel records: packages/kernel/src/audit/types.ts. The journal (audit/memoryJournal.ts)
-- is a list in the order of the records; the ids that it assigns are left out, as nothing reads them.
use consisten_cy.Base.{ℕ, String, Option}
use consisten_cy.Identity.{ResourceKind}
use consisten_cy.Capability.{Action, DenyReason}

-- The decision of an authorisation with its reason.
pub data Decision : Type 0 where
  allow : Decision
  deny : DenyReason → Decision

pub record Authorisation : Type 0 where
  pub timestamp : ℕ
  pub principal : String
  pub handle_fingerprint : String
  pub action : Action
  pub resource_kind : ResourceKind
  pub decision : Decision

pub record Issue : Type 0 where
  pub timestamp : ℕ
  pub capability_id : String
  pub handle_fingerprint : String
  pub subject : String
  pub action : Action
  pub resource_kind : ResourceKind
  pub expires_at : Option ℕ

pub record Revocation : Type 0 where
  pub timestamp : ℕ
  pub capability_id : String
  pub handle_fingerprint : String
  pub subject : String
  pub revoked_by : String

pub record Acceptance : Type 0 where
  pub timestamp : ℕ
  pub intent_id : String
  pub action : Action
  pub resource_kind : ResourceKind
  pub subject : String
  pub idempotency_key : String
  pub payload_hash : String

pub record Denial : Type 0 where
  pub timestamp : ℕ
  pub action : Action
  pub resource_kind : ResourceKind
  pub subject : String
  pub idempotency_key : String
  pub reason : DenyReason

pub data AuditEvent : Type 0 where
  capability_issued : Issue → AuditEvent
  capability_revoked : Revocation → AuditEvent
  syscall_authorised : Authorisation → AuditEvent
  commit_intent_accepted : Acceptance → AuditEvent
  commit_intent_denied : Denial → AuditEvent
