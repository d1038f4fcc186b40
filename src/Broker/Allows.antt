-- ===== src/Broker/Allows.antt =====
-- What an authorisation that succeeds leaves: packages/kernel/src/capability/broker.ts.
use consisten_cy.Base.{
  ℕ, ◌≡◌, ◌⊎◌, refl, sym, ◌∙◌, subst, String, Bool, Option, none, some, arith, Result, ok, err,
  Option-cases, inl, inr,
}
use consisten_cy.Base.Dict
use consisten_cy.Identity.{Text}
use consisten_cy.Capability.{DenyReason}
use consisten_cy.Budget
use consisten_cy.Budget.{
  Accountant, CapabilityBudget, ReserveRequest, ReserveResult, reserved, refused,
}
use consisten_cy.Broker.Data.{
  CapabilityRecord, AuthoriseRequest, ReservationToken, Broker, BrokerFault, denied,
}
use consisten_cy.Broker.Checks.{check_record}
use consisten_cy.Broker.Operations.{authorise, audit, decide, reserve_if, reserve_request, settle}

-- The capability behind the handle has no budget, or no account.
abbrev pub HasNoAccount : String → Broker → Type 0
HasNoAccount handle b =
    (c : CapabilityRecord) × (Dict.get handle b.records ≡ some c)
    × ((c.budget ≡ none) ⊎ (Dict.get handle b.accountants ≡ none))

-- Without a budget or an account nothing is reserved; else one call, in the account of the handle.
pub data Allows (id : String) (request : AuthoriseRequest) (b : Broker)
    : Option ReservationToken → Broker → Type 0 where
  free :
      {b' : Broker}
      → HasNoAccount request.handle b
      → b'.accountants ≡ b.accountants
      → Allows id request b none b'
  held :
      {b' : Broker} (a : Accountant)
      → Dict.get request.handle b.accountants ≡ some a
      → (Budget.reserve id (reserve_request request.tokens_to_reserve) a).0 ≡ reserved id
      → b'.accountants
        ≡ Dict.set request.handle
            (Budget.reserve id (reserve_request request.tokens_to_reserve) a).1
            b.accountants
      → Allows id request b (some (record { handle = request.handle; reservation_id = id })) b'

-- Only the accounts matter.
Allows-keeps :
    {id : String} {request : AuthoriseRequest} {b b1 : Broker} {p : Option ReservationToken}
    (b2 : Broker)
    → Allows id request b p b1
    → b2.accountants ≡ b1.accountants
    → Allows id request b p b2
Allows-keeps b2 (free n same) k = free n (k ∙ same)
Allows-keeps b2 (held a e r same) k = held a e r (k ∙ same)

abbrev no_token : Result DenyReason (Option ReservationToken)
no_token = ok none

settle-Allows :
    (id : String) (request : AuthoriseRequest) (a : Accountant) (b : Broker)
    (o : Option ReservationToken)
    → Dict.get request.handle b.accountants ≡ some a
    → (settle request.handle (Budget.reserve id (reserve_request request.tokens_to_reserve) a) b).0
      ≡ ok o
    → Allows id request b o
        (settle request.handle
          (Budget.reserve id (reserve_request request.tokens_to_reserve) a)
          b).1
unfolding Budget.reserve
settle-Allows id request a b o found h =
    go (Budget.reserve id (reserve_request request.tokens_to_reserve) a) refl h
  where
    go :
        (r : ReserveResult × Accountant)
        → Budget.reserve id (reserve_request request.tokens_to_reserve) a ≡ r
        → (settle request.handle r b).0 ≡ ok o
        → Allows id request b o (settle request.handle r b).1
    go (reserved i, x) e h =
        let same : i ≡ id = ground arith in
        let t : o ≡ some (record { handle = request.handle; reservation_id = id }) = ground arith in
        subst (λ t. Allows id request b t (settle request.handle (reserved i, x) b).1) (sym t)
          (held a found (ground arith) (ground arith))
    go (refused s, x) e h = cc

reserve_if-Allows :
    (id : String) (request : AuthoriseRequest) (c : CapabilityRecord) (b : Broker)
    (o : Option ReservationToken)
    → Dict.get request.handle b.records ≡ some c
    → (reserve_if id request c b).0 ≡ ok o
    → Allows id request b o (reserve_if id request c b).1
reserve_if-Allows id request c b o known = elim (Option-cases c.budget) [
  | inl e ↦ rw (e, reserve_if) (nothing (c, known, inl e) refl)
  | inr (limits, e) ↦ elim (Option-cases (Dict.get request.handle b.accountants)) [
    | inl f ↦ rw (e, reserve_if, f) (nothing (c, known, inr f) refl)
    | inr (a, f) ↦ rw (e, reserve_if, f) (settle-Allows id request a b o f)
  ]
]
  where
    nothing :
        {b' : Broker}
        → HasNoAccount request.handle b
        → b'.accountants ≡ b.accountants
        → no_token ≡ ok o
        → Allows id request b o b'
    nothing {b'} n same h = subst (λ t. Allows id request b t b') (ground arith) (free n same)

module _ (minimatch : Text → Text → Bool) where
  decide-Allows :
      (now : ℕ) (id : String) (request : AuthoriseRequest) (found : Option CapabilityRecord)
      (b : Broker) (o : Option ReservationToken)
      → Dict.get request.handle b.records ≡ found
      → (decide minimatch now id request found b).0 ≡ ok o
      → Allows id request b o (decide minimatch now id request found b).1
  decide-Allows now id request none b o known = λ h. cc
  decide-Allows now id request (some c) b o known =
      elim (Option-cases (check_record minimatch now request c)) [
        | inr (reason, e) ↦ rw (decide, e) (λ h. cc)
        | inl fine ↦ rw (decide, fine) (reserve_if-Allows id request c b o known)
      ]

  audit-Allows :
      (now : ℕ) (id : String) (request : AuthoriseRequest) (found : Option CapabilityRecord)
      (b : Broker) (r : Result DenyReason (Option ReservationToken) × Broker)
      (o : Option ReservationToken)
      → ((p : Option ReservationToken) → r.0 ≡ ok p → Allows id request b p r.1)
      → (audit now request found r).0 ≡ ok o
      → Allows id request b o (audit now request found r).1
  audit-Allows now id request found b (err e, b') o k h = cc
  audit-Allows now id request found b (ok p, b') o k h =
      let b2 = (audit now request found (ok p, b')).1 in
      let same : p ≡ o = ground arith in
      subst (λ t. Allows id request b t b2) same (Allows-keeps b2 (k p refl) refl)

  pub authorise-Allows :
      (now : ℕ) (id : String) (request : AuthoriseRequest) (b : Broker)
      (o : Option ReservationToken)
      → (authorise minimatch now id request b).0 ≡ ok o
      → Allows id request b o (authorise minimatch now id request b).1
  unfolding authorise
  authorise-Allows now id request b o h =
      let found = Dict.get request.handle b.records in
      audit-Allows now id request found b (decide minimatch now id request found b) o
        (λ p. decide-Allows now id request found b p refl) h

  -- What `authorise` throws is a denial.
  audit_throws :
      (now : ℕ) (request : AuthoriseRequest) (found : Option CapabilityRecord)
      (r : Result DenyReason (Option ReservationToken) × Broker) (e : BrokerFault)
      → (audit now request found r).0 ≡ err e
      → (reason : DenyReason) × (e ≡ denied reason)
  audit_throws now request found (ok t, b) e h = cc
  audit_throws now request found (err reason, b) e h = (reason, ground arith)

  pub authorise_throws :
      (now : ℕ) (id : String) (request : AuthoriseRequest) (b : Broker) (e : BrokerFault)
      → (authorise minimatch now id request b).0 ≡ err e
      → (reason : DenyReason) × (e ≡ denied reason)
  unfolding authorise
  authorise_throws now id request b e h =
      let found = Dict.get request.handle b.records in
      audit_throws now request found (decide minimatch now id request found b) e h
