-- ===== src/Broker/Data.antt =====
-- The state and the requests of the broker: packages/kernel/src/capability/broker.ts, types.ts,
-- events.ts, handle.ts.
use Prim.Native.String.{slice}
use consisten_cy.Base.{ℕ, String, Bool, Option, List}
use consisten_cy.Base.Dict.{Dict}
use consisten_cy.Identity.{Principal, Resource, ResourceKind, ResourceScope, Text}
use consisten_cy.Capability.{Action, DenyReason}
use consisten_cy.Audit.{AuditEvent}
use consisten_cy.Budget.{Accountant, CapabilityBudget}

pub record CapabilityRecord : Type 0 where
  pub id : String
  pub handle : String
  pub subject : String
  pub action : Action
  pub resource : Resource
  pub scope : Option ResourceScope
  pub issued_at : ℕ
  pub expires_at : Option ℕ
  pub budget : Option CapabilityBudget
  pub revoked : Bool

pub record IssueRequest : Type 0 where
  pub subject : Principal
  pub action : Action
  pub resource : Resource
  pub scope : Option ResourceScope
  pub expires_at : Option ℕ
  pub budget : Option CapabilityBudget

pub record AuthoriseRequest : Type 0 where
  pub principal : Principal
  pub handle : String
  pub action : Action
  pub resource : Resource
  pub path : Option Text
  pub sha : Option String
  pub tokens_to_reserve : Option ℕ

pub record ReservationToken : Type 0 where
  pub handle : String
  pub reservation_id : String

pub record Change : Type 0 where
  pub timestamp : ℕ
  pub subject : String
  pub action : Action
  pub resource_kind : ResourceKind
  pub handle_fingerprint : String

pub data CapabilityChangeEvent : Type 0 where
  issued revoked : Change → CapabilityChangeEvent

-- `changes` is what the bus of changes was given, in order.
pub record Broker : Type 0 where
  pub records : Dict CapabilityRecord
  pub accountants : Dict Accountant
  pub journal : List AuditEvent
  pub changes : List CapabilityChangeEvent

pub data BrokerFault : Type 0 where
  denied : DenyReason → BrokerFault
  expiry_not_in_future : BrokerFault

-- `handle.slice(4, 16)`: a handle is ASCII.
abbrev pub audit_fingerprint : String → String
audit_fingerprint handle = slice handle 4 16
