-- ===== src/Commit/Data.antt =====
-- The state of the coordinator: packages/kernel/src/commit/types.ts, errors.ts and the fields of
-- `CommitCoordinator` in coordinator.ts.
use consisten_cy.Base.{ℕ, String, Option, List}
use consisten_cy.Base.Dict.{Dict}
use consisten_cy.Identity.{Principal, Resource}
use consisten_cy.Capability.{Action}
use consisten_cy.Audit.{AuditEvent}
use consisten_cy.Broker.Data.{Broker, BrokerFault}

pub record CommitIntent : Type 0 where
  pub id : String
  pub run_id : Option String
  pub action : Action
  pub subject : String
  pub resource : Resource
  pub idempotency_key : String
  pub payload_hash : String
  pub created_at : ℕ

pub data CommitReceiptStatus : Type 0 where
  accepted duplicate : CommitReceiptStatus

pub record CommitReceipt : Type 0 where
  pub intent_id : String
  pub idempotency_key : String
  pub accepted_at : ℕ
  pub status : CommitReceiptStatus

-- The payload is there by its hash alone, which is missing where the payload has no canonical form.
pub record CommitAcceptRequest : Type 0 where
  pub principal : Principal
  pub handle : String
  pub action : Action
  pub resource : Resource
  pub idempotency_key : String
  pub payload_hash : Option String
  pub run_id : Option String

pub data CommitFault : Type 0 where
  intent_rejected : Action → CommitFault
  not_canonical : CommitFault
  refused : BrokerFault → CommitFault
  sink_failed : CommitFault

-- What a call of `#acceptInternal` waits for: its intent is with the sink, or its error is still to be
-- thrown to the call for a key.
pub data Promise : Type 0 where
  persisting : CommitIntent → Promise
  failing : String → CommitFault → Promise

-- A promise that is not settled, by its number.
pub record Pending : Type 0 where
  pub number : ℕ
  pub promise : Promise

-- `in_flight` has the number of the promise of a key; `pending` has the promises that are not settled,
-- whether or not a key leads to them; `promises` is how many were made. `journal` is the coordinator's
-- own; `handed` lists what the sink was given, in order.
pub record Coordinator : Type 0 where
  pub broker : Broker
  pub journal : List AuditEvent
  pub intents : Dict CommitIntent
  pub in_flight : Dict ℕ
  pub receipts : Dict CommitReceipt
  pub pending : List Pending
  pub promises : ℕ
  pub handed : List CommitIntent
