-- ===== src/Broker/Operations.antt =====
-- The methods of the broker: packages/kernel/src/capability/broker.ts.
use consisten_cy.Base.{
  ℕ, String, Bool, true, false, not, Option, none, some, List, [], ◌∷◌, ◌++◌, ok, err, Result, Exec,
  if◌then◌else◌, ite, string_dec, includes,
}
use consisten_cy.Base.Dict
use consisten_cy.Identity.{Text, kind_of}
use consisten_cy.Capability.{
  DenyReason, capability_issuable_ring, ring_allowed_kinds, kind_eq, unknown_capability,
  action_mismatch, budget_exhausted,
}
use consisten_cy.Audit.{
  capability_issued, capability_revoked, syscall_authorised, Decision, allow, deny,
}
use consisten_cy.Budget
use consisten_cy.Budget.{
  Accountant, CapabilityBudget, ReserveResult, reserved, refused, open_account,
}
use consisten_cy.Broker.Data.{
  CapabilityRecord, IssueRequest, AuthoriseRequest, ReservationToken, Change, CapabilityChangeEvent,
  Broker, BrokerFault, denied, expiry_not_in_future, audit_fingerprint,
}
use consisten_cy.Broker.Checks.{has_expired, check_record}

abbrev pub Action : Type 0 → Type 0
Action A = Exec Broker BrokerFault A

abbrev pub new_record : ℕ → String → String → IssueRequest → CapabilityRecord
new_record now handle id request = record {
  id = id;
  handle = handle;
  subject = request.subject.id;
  action = request.action;
  resource = request.resource;
  scope = request.scope;
  issued_at = now;
  expires_at = request.expires_at;
  budget = request.budget;
  revoked = false;
}

abbrev open_if : Option CapabilityBudget → String → Broker → Broker
open_if none handle b = b
open_if (some limits) handle b = record b {
  accountants = Dict.set handle (open_account limits) b.accountants;
}

abbrev change_of : ℕ → CapabilityRecord → String → Change
change_of timestamp c handle = record {
  timestamp = timestamp;
  subject = c.subject;
  action = c.action;
  resource_kind = kind_of c.resource;
  handle_fingerprint = audit_fingerprint handle;
}

-- The new record with its account, and the two notices of it.
abbrev pub store : ℕ → CapabilityRecord → Broker → Broker
store now c b =
    let stored = open_if c.budget c.handle (record b { records = Dict.set c.handle c b.records }) in
    record stored {
      journal =
          stored.journal
          ++ capability_issued (record {
            timestamp = now;
            capability_id = c.id;
            handle_fingerprint = audit_fingerprint c.handle;
            subject = c.subject;
            action = c.action;
            resource_kind = kind_of c.resource;
            expires_at = c.expires_at;
          })
            ∷ [];
      changes = stored.changes ++ CapabilityChangeEvent.issued (change_of now c c.handle) ∷ [];
    }

unfoldable pub issue : ℕ → String → String → IssueRequest → Action String
issue now handle id request b =
    if not (
      includes kind_eq request.subject.kind
        (ring_allowed_kinds (capability_issuable_ring request.action)))
    then (err (denied action_mismatch), b)
    else if has_expired now request.expires_at
    then (err expiry_not_in_future, b)
    else (ok handle, store now (new_record now handle id request) b)

-- `record.revoked = true` changes the stored record in its place.
unfoldable pub revoke : ℕ → String → String → Action (Unit {0})
revoke now handle revoked_by b = elim (Dict.get handle b.records) [
  | none ↦ (err (denied unknown_capability), b)
  | some c ↦ (
    ok tt,
    record b {
      records = Dict.set handle (record c { revoked = true }) b.records;
      journal =
          b.journal
          ++ capability_revoked (record {
            timestamp = now;
            capability_id = c.id;
            handle_fingerprint = audit_fingerprint handle;
            subject = c.subject;
            revoked_by = revoked_by;
          })
            ∷ [];
      changes = b.changes ++ CapabilityChangeEvent.revoked (change_of now c handle) ∷ [];
    },
  )
]

abbrev pub reserve_request : Option ℕ → Budget.ReserveRequest
reserve_request tokens = record { calls = 1; tokens = tokens; cost_usd_micros = none }

-- The account with the reservation, and the token or the denial.
abbrev pub settle :
    String
    → ReserveResult × Accountant
    → Broker
    → Result DenyReason (Option ReservationToken) × Broker
settle handle (reserved id, a) b = (
  ok (some (record { handle = handle; reservation_id = id })),
  record b { accountants = Dict.set handle a b.accountants },
)
settle handle (refused shortage, a) b =
    (err budget_exhausted, record b { accountants = Dict.set handle a b.accountants })

-- Test 8: a call is reserved if the capability has a budget and an account.
abbrev pub reserve_from :
    String
    → AuthoriseRequest
    → Option Accountant
    → Broker
    → Result DenyReason (Option ReservationToken) × Broker
reserve_from id request none b = (ok none, b)
reserve_from id request (some a) b =
    settle request.handle (Budget.reserve id (reserve_request request.tokens_to_reserve) a) b

abbrev pub reserve_if :
    String
    → AuthoriseRequest
    → CapabilityRecord
    → Broker
    → Result DenyReason (Option ReservationToken) × Broker
reserve_if id request c b = elim c.budget [
  | none ↦ (ok none, b)
  | some limits ↦ reserve_from id request (Dict.get request.handle b.accountants) b
]

abbrev pub decision_of : {A : Type 0} → Result DenyReason A → Decision
decision_of (ok a) = allow
decision_of (err reason) = deny reason

abbrev thrown : {A : Type 0} → Result DenyReason A → Result BrokerFault A
thrown (ok a) = ok a
thrown (err reason) = err (denied reason)

abbrev pub fingerprint_of : Option CapabilityRecord → String
fingerprint_of none = "(unknown)"
fingerprint_of (some c) = audit_fingerprint c.handle

-- One entry for the decision, whichever it is, and then the token or the error.
abbrev pub audit :
    ℕ
    → AuthoriseRequest
    → Option CapabilityRecord
    → Result DenyReason (Option ReservationToken) × Broker
    → Result BrokerFault (Option ReservationToken) × Broker
audit now request found (r, b) = (
  thrown r,
  record b {
    journal =
        b.journal
        ++ syscall_authorised (record {
          timestamp = now;
          principal = request.principal.id;
          handle_fingerprint = fingerprint_of found;
          action = request.action;
          resource_kind = kind_of request.resource;
          decision = decision_of r;
        })
          ∷ [];
  },
)

module _ (minimatch : Text → Text → Bool) where
  abbrev pub decide :
      ℕ
      → String
      → AuthoriseRequest
      → Option CapabilityRecord
      → Broker
      → Result DenyReason (Option ReservationToken) × Broker
  decide now id request none b = (err unknown_capability, b)
  decide now id request (some c) b = elim (check_record minimatch now request c) [
    | some reason ↦ (err reason, b)
    | none ↦ reserve_if id request c b
  ]

  unfoldable pub authorise : ℕ → String → AuthoriseRequest → Action (Option ReservationToken)
  authorise now id request b =
      let found = Dict.get request.handle b.records in
      audit now request found (decide now id request found b)

-- `this.#accountants.get(handle)?.method(...)`.
abbrev pub on_account : String → (Accountant → Accountant) → Broker → Broker
on_account handle f b = elim (Dict.get handle b.accountants) [
  | none ↦ b
  | some a ↦ record b { accountants = Dict.set handle (f a) b.accountants }
]

unfoldable pub commit_tokens : ReservationToken → ℕ → ℕ → Broker → Broker
commit_tokens token tokens cost b =
    on_account token.handle (Budget.commit token.reservation_id tokens cost) b

unfoldable pub release_tokens : ReservationToken → Broker → Broker
release_tokens token b = on_account token.handle (Budget.release token.reservation_id) b

unfoldable pub release_all_tokens : String → Broker → ℕ × Broker
release_all_tokens handle b = elim (Dict.get handle b.accountants) [
  | none ↦ (0, b)
  | some a ↦
      let (n, cleared) = Budget.release_all a in
      (n, record b { accountants = Dict.set handle cleared b.accountants })
]

unfoldable pub records_of : String → List CapabilityRecord → List CapabilityRecord
records_of subject [] = []
records_of subject (c ∷ records) =
    let rest = records_of subject records in ite (string_dec c.subject subject) (c ∷ rest) rest

abbrev pub get_records_for_subject : String → Broker → List CapabilityRecord
get_records_for_subject subject b = records_of subject (Dict.values b.records)
