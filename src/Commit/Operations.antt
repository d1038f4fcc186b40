-- ===== src/Commit/Operations.antt =====
-- `accept` and `#acceptInternal` of packages/kernel/src/commit/coordinator.ts. `submit` is what runs
-- at once, up to the wait for the sink; `settle` is what runs when the wait of one such call is over.
use consisten_cy.Base.{
  ℕ, suc, ◌==◌, String, Bool, not, ◌||◌, Option, none, some, List, [], ◌∷◌, ◌++◌, ok, err, Result,
  if◌then◌else◌,
}
use consisten_cy.Base.Dict
use consisten_cy.Base.Dict.{is_some}
use consisten_cy.Identity.{Text, kind_of}
use consisten_cy.Capability.{Action, DenyReason, action_eq, github_publish, repo_write}
use consisten_cy.Audit.{AuditEvent, commit_intent_accepted, commit_intent_denied}
use consisten_cy.Broker.Data.{AuthoriseRequest, ReservationToken, Broker, BrokerFault, denied}
use consisten_cy.Broker.Operations.{authorise}
use consisten_cy.Gateway.{released}
use consisten_cy.Commit.Data.{
  CommitIntent, CommitReceipt, CommitReceiptStatus, CommitAcceptRequest, CommitFault,
  intent_rejected, not_canonical, refused, sink_failed, Promise, persisting, failing, Pending,
  Coordinator,
}

-- `COMMIT_INTENT_ACTIONS.has(action)`.
abbrev pub is_commit_action : Action → Bool
is_commit_action action = action_eq action github_publish || action_eq action repo_write

-- What `accept` gives at once: a receipt, an error, or a promise, by its number.
pub data Reply : Type 0 where
  returns : CommitReceipt → Reply
  throws : CommitFault → Reply
  waits : ℕ → Reply

abbrev pub as_duplicate : CommitReceipt → CommitReceipt
as_duplicate receipt = record receipt { status = CommitReceiptStatus.duplicate }

abbrev pub authorise_request : CommitAcceptRequest → AuthoriseRequest
authorise_request request = record {
  principal = request.principal;
  handle = request.handle;
  action = request.action;
  resource = request.resource;
  path = none;
  sha = none;
  tokens_to_reserve = none;
}

abbrev pub new_intent : ℕ → String → String → CommitAcceptRequest → CommitIntent
new_intent now id payload_hash request = record {
  id = id;
  run_id = request.run_id;
  action = request.action;
  subject = request.principal.id;
  resource = request.resource;
  idempotency_key = request.idempotency_key;
  payload_hash = payload_hash;
  created_at = now;
}

abbrev pub denial : ℕ → CommitAcceptRequest → DenyReason → AuditEvent
denial now request reason = commit_intent_denied (record {
  timestamp = now;
  action = request.action;
  resource_kind = kind_of request.resource;
  subject = request.principal.id;
  idempotency_key = request.idempotency_key;
  reason = reason;
})

abbrev pub acceptance : ℕ → CommitIntent → AuditEvent
acceptance now intent = commit_intent_accepted (record {
  timestamp = now;
  intent_id = intent.id;
  action = intent.action;
  resource_kind = kind_of intent.resource;
  subject = intent.subject;
  idempotency_key = intent.idempotency_key;
  payload_hash = intent.payload_hash;
})

-- The promise is stored under the key once the first part of `#acceptInternal` is over.
abbrev pub promise : String → Promise → Coordinator → Coordinator
promise key p c = record c {
  in_flight = Dict.set key c.promises c.in_flight;
  pending = record { number = c.promises; promise = p } ∷ c.pending;
  promises = suc c.promises;
}

-- Only a denial is journalled; other errors pass.
abbrev pub denial_of : ℕ → CommitAcceptRequest → BrokerFault → List AuditEvent
denial_of now request (denied reason) = denial now request reason ∷ []
denial_of now request _ = []

-- After the authorisation: a denial, or the intent goes to the sink and a reservation is released.
abbrev pub hand_over :
    ℕ
    → String
    → String
    → CommitAcceptRequest
    → Result BrokerFault (Option ReservationToken) × Broker
    → Coordinator
    → Coordinator
hand_over now id payload_hash request (err e, b) c =
    promise request.idempotency_key (failing request.idempotency_key (refused e))
      (record c { broker = b; journal = c.journal ++ denial_of now request e })
hand_over now id payload_hash request (ok token, b) c =
    let intent = new_intent now id payload_hash request in
    promise request.idempotency_key (persisting intent)
      (record c { broker = released token b; handed = c.handed ++ intent ∷ [] })

module _ (minimatch : Text → Text → Bool) where
  abbrev pub start : ℕ → String → String → CommitAcceptRequest → Coordinator → Coordinator
  start now id reservation request c = elim request.payload_hash [
    | none ↦ promise request.idempotency_key (failing request.idempotency_key not_canonical) c
    | some payload_hash ↦
        hand_over now id payload_hash request
          (authorise minimatch now reservation (authorise_request request) c.broker) c
  ]

  unfoldable pub submit :
      ℕ → String → String → CommitAcceptRequest → Coordinator → Reply × Coordinator
  submit now id reservation request c =
      if not (is_commit_action request.action)
      then (throws (intent_rejected request.action), c)
      else elim (Dict.get request.idempotency_key c.receipts) [
        | some receipt ↦ (returns (as_duplicate receipt), c)
        | none ↦ elim (Dict.get request.idempotency_key c.in_flight) [
          | some number ↦ (waits number, c)
          | none ↦ (waits c.promises, start now id reservation request c)
        ]
      ]

-- The sink gave a receipt: the intent is kept and journalled, and the receipt stored under the key.
abbrev pub accepted_by_sink : CommitIntent → CommitReceipt → Coordinator → Coordinator
accepted_by_sink intent receipt c = record c {
  intents = Dict.set intent.id intent c.intents;
  journal = c.journal ++ acceptance intent.created_at intent ∷ [];
  receipts = Dict.set intent.idempotency_key receipt c.receipts;
}

-- A failed acceptance is forgotten, so that it can be tried again.
abbrev pub forget : String → Coordinator → Coordinator
forget key c = record c { in_flight = Dict.delete key c.in_flight }

unfoldable pub find_pending : ℕ → List Pending → Option Promise
find_pending number [] = none
find_pending number (p ∷ ps) = if p.number == number then some p.promise else find_pending number ps

unfoldable pub remove_pending : ℕ → List Pending → List Pending
remove_pending number [] = []
remove_pending number (p ∷ ps) = if p.number == number then ps else p ∷ remove_pending number ps

-- What those who wait for the promise get, and the state after it; the sink's answer is an argument.
abbrev pub settle_promise : Option CommitReceipt → Promise → Coordinator → Reply × Coordinator
settle_promise (some receipt) (persisting intent) c =
    (returns receipt, accepted_by_sink intent receipt c)
settle_promise none (persisting intent) c = (throws sink_failed, forget intent.idempotency_key c)
settle_promise answer (failing key e) c = (throws e, forget key c)

-- A promise that is settled already stays as it is.
unfoldable pub settle : ℕ → Option CommitReceipt → Coordinator → Reply × Coordinator
settle number answer c = elim (find_pending number c.pending) [
  | none ↦ (waits number, c)
  | some p ↦ settle_promise answer p (record c { pending = remove_pending number c.pending })
]

-- Calls and answers in any order.
pub data Event : Type 0 where
  submits : ℕ → String → String → CommitAcceptRequest → Event
  settles : ℕ → Option CommitReceipt → Event

module _ (minimatch : Text → Text → Bool) where
  unfoldable pub step : Event → Coordinator → Coordinator
  step (submits now id reservation request) c = (submit minimatch now id reservation request c).1
  step (settles number answer) c = (settle number answer c).1

  unfoldable pub run : List Event → Coordinator → Coordinator
  run [] c = c
  run (event ∷ events) c = run events (step event c)

unfoldable pub new_coordinator : Broker → Coordinator
new_coordinator b = record {
  broker = b;
  journal = [];
  intents = [];
  in_flight = [];
  receipts = [];
  pending = [];
  promises = 0;
  handed = [];
}
