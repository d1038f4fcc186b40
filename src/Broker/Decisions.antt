-- ===== src/Broker/Decisions.antt =====
-- What `authorise` of packages/kernel/src/capability/broker.ts decides, and what it changes.
use consisten_cy.Base.{
  ℕ, ◌≡◌, ◌↔◌, refl, subst, String, Bool, Option, none, some, [], ◌∷◌, ◌++◌, arith, Result, ok, err,
  Option-cases, inl, inr,
}
use consisten_cy.Base.Dict
use consisten_cy.Identity.{Text, kind_of}
use consisten_cy.Capability.{DenyReason}
use consisten_cy.Audit.{AuditEvent, Decision, syscall_authorised, deny}
use consisten_cy.Budget
use consisten_cy.Budget.{
  Accountant, CapabilityBudget, ReserveRequest, ReserveResult, reserved, refused,
}
use consisten_cy.Budget.Limits.{Fits, reserve-Fits}
use consisten_cy.Broker.Data.{CapabilityRecord, AuthoriseRequest, ReservationToken, Broker, denied}
use consisten_cy.Broker.Checks.{check_record}
use consisten_cy.Broker.Grant.{Granted, check_record-Granted}
use consisten_cy.Broker.Operations.{
  authorise, audit, decide, reserve_if, reserve_request, settle, fingerprint_of,
}

-- One call and the tokens asked for fit into the account of the handle, if the capability has a
-- budget and an account.
abbrev pub HasRoom : AuthoriseRequest → Option CapabilityBudget → Option Accountant → Type 0
HasRoom request (some limits) (some a) = Fits (reserve_request request.tokens_to_reserve) a
HasRoom request _ _ = Unit

-- The handle is known, its record grants the request, and there is room for it.
pub record IsPermitted (minimatch : Text → Text → Bool) (now : ℕ) (request : AuthoriseRequest)
    (b : Broker) : Type 0 where
  pub c : CapabilityRecord
  pub found : Dict.get request.handle b.records ≡ some c
  pub granted : Granted minimatch now request c
  pub room : HasRoom request c.budget (Dict.get request.handle b.accountants)

abbrev pub IsOk : {E A : Type 0} → Result E A → Type 0
IsOk (ok a) = Unit
IsOk (err e) = ⊥

audit-IsOk :
    (now : ℕ) (request : AuthoriseRequest) (found : Option CapabilityRecord)
    (r : Result DenyReason (Option ReservationToken) × Broker)
    → IsOk (audit now request found r).0 ↔ IsOk r.0
audit-IsOk now request found (ok t, b) = ground arith
audit-IsOk now request found (err e, b) = ground arith

settle-IsOk :
    (handle id : String) (request : ReserveRequest) (a : Accountant) (b : Broker)
    → IsOk (settle handle (Budget.reserve id request a) b).0
      ↔ ((Budget.reserve id request a).0 ≡ reserved id)
unfolding Budget.reserve
settle-IsOk handle id request a b = ground arith

reserve_if-HasRoom :
    (id : String) (request : AuthoriseRequest) (c : CapabilityRecord) (b : Broker)
    → IsOk (reserve_if id request c b).0
      ↔ HasRoom request c.budget (Dict.get request.handle b.accountants)
reserve_if-HasRoom id request c b = elim (Option-cases c.budget) [
  | inl e ↦ rw e (ground arith)
  | inr (limits, e) ↦ elim (Option-cases (Dict.get request.handle b.accountants)) [
    | inl f ↦ rw (e, f) (ground arith)
    | inr (a, f) ↦
        let r = reserve_request request.tokens_to_reserve in
        let s = settle-IsOk request.handle id r a b in
        let fits = reserve-Fits id r a in rw (e, f) ((λ h. fits.0 (s.0 h)), λ h. s.1 (fits.1 h))
  ]
]

-- The entry of the journal for a decision.
abbrev pub entry : ℕ → AuthoriseRequest → Broker → Decision → AuditEvent
entry now request b decision = syscall_authorised (record {
  timestamp = now;
  principal = request.principal.id;
  handle_fingerprint = fingerprint_of (Dict.get request.handle b.records);
  action = request.action;
  resource_kind = kind_of request.resource;
  decision = decision;
})

-- A refused reservation leaves the broker as it was.
settle_refused :
    (handle id : String) (request : ReserveRequest) (a : Accountant) (b : Broker) (e : DenyReason)
    → Dict.get handle b.accountants ≡ some a
    → (settle handle (Budget.reserve id request a) b).0 ≡ err e
    → (settle handle (Budget.reserve id request a) b).1 ≡ b
unfolding Budget.reserve
settle_refused handle id request a b e found h = ground (arith, Dict.set-get handle a b.accountants)

reserve_if_refused :
    (id : String) (request : AuthoriseRequest) (c : CapabilityRecord) (b : Broker) (e : DenyReason)
    → (reserve_if id request c b).0 ≡ err e
    → (reserve_if id request c b).1 ≡ b
reserve_if_refused id request c b e = elim (Option-cases c.budget) [
  | inl n ↦ rw n (λ h. refl)
  | inr (limits, n) ↦ elim (Option-cases (Dict.get request.handle b.accountants)) [
    | inl f ↦ rw (n, f) (λ h. refl)
    | inr (a, f) ↦
        rw (n, f)
          (settle_refused request.handle id (reserve_request request.tokens_to_reserve) a b e f)
  ]
]

audit_denied :
    (now : ℕ) (request : AuthoriseRequest) (o : Option CapabilityRecord)
    (r : Result DenyReason (Option ReservationToken) × Broker) (reason : DenyReason)
    → (audit now request o r).0 ≡ err (denied reason)
    → r.0 ≡ err reason
audit_denied now request o (ok t, b) reason h = cc
audit_denied now request o (err e, b) reason h = ground arith

module _ (minimatch : Text → Text → Bool) where
  decide-IsPermitted :
      (now : ℕ) (id : String) (request : AuthoriseRequest) (b : Broker)
      → IsOk (decide minimatch now id request (Dict.get request.handle b.records) b).0
        ↔ IsPermitted minimatch now request b
  decide-IsPermitted now id request b = elim (Option-cases (Dict.get request.handle b.records)) [
    | inl e ↦ rw e ((λ h. absurd h), λ p. absurd (ground (arith, p.found)))
    | inr (c, e) ↦ rw e (
        let grants = check_record-Granted minimatch now request c in
        elim (Option-cases (check_record minimatch now request c)) [
          | inr (reason, denial) ↦
              rw (decide, denial)
                (
                  (λ h. absurd h),
                  λ p.
                      let same : p.c ≡ c = ground (arith, p.found) in
                      let none_found =
                        grants.1 (subst (Granted minimatch now request) same p.granted) in
                      absurd (ground (arith, none_found, denial)),
                )
          | inl fine ↦
              let room = reserve_if-HasRoom id request c b in
              rw (decide, fine)
                (
                  (λ h. record { c = c; found = e; granted = grants.0 fine; room = room.0 h }),
                  λ p.
                      let same : p.c ≡ c = ground (arith, p.found) in
                      room.1 (
                        subst
                          (λ (x : CapabilityRecord).
                            HasRoom request x.budget (Dict.get request.handle b.accountants))
                          same p.room),
                )
        ])
  ]

  -- A request is allowed exactly if its handle is known, the record behind it is not revoked, not
  -- expired, of the same subject and action, covers the resource and has a scope, if any, that the
  -- request's commit and path meet; if the record has a scope and the principal a run, evidence or a
  -- workspace that is wanted is of that run; and if the record has a budget and an account, one more
  -- call and the tokens asked for are within the limits on calls and tokens beside what is used and
  -- held, and the cost used and held is within its limit.
  pub authorise-IsPermitted :
      (now : ℕ) (id : String) (request : AuthoriseRequest) (b : Broker)
      → IsOk (authorise minimatch now id request b).0 ↔ IsPermitted minimatch now request b
  unfolding authorise
  authorise-IsPermitted now id request b =
      let found = Dict.get request.handle b.records in
      let d = decide minimatch now id request found b in
      (
        (λ h. (decide-IsPermitted now id request b).0 ((audit-IsOk now request found d).0 h)),
        λ p. (audit-IsOk now request found d).1 ((decide-IsPermitted now id request b).1 p),
      )

  decide_refused :
      (now : ℕ) (id : String) (request : AuthoriseRequest) (o : Option CapabilityRecord)
      (b : Broker) (e : DenyReason)
      → (decide minimatch now id request o b).0 ≡ err e
      → (decide minimatch now id request o b).1 ≡ b
  decide_refused now id request none b e = λ h. refl
  decide_refused now id request (some c) b e =
      elim (Option-cases (check_record minimatch now request c)) [
        | inr (reason, denial) ↦ rw (decide, denial) (λ h. refl)
        | inl fine ↦ rw (decide, fine) (reserve_if_refused id request c b e)
      ]

  -- A denial changes nothing but the journal, which gets the denial with its reason.
  pub authorise_denied :
      (now : ℕ) (id : String) (request : AuthoriseRequest) (b : Broker) (reason : DenyReason)
      → (authorise minimatch now id request b).0 ≡ err (denied reason)
      → (authorise minimatch now id request b).1
        ≡ record b { journal = b.journal ++ entry now request b (deny reason) ∷ [] }
  unfolding authorise
  authorise_denied now id request b reason h =
      let o = Dict.get request.handle b.records in
      let r = decide minimatch now id request o b in
      let e : r.0 ≡ err reason = audit_denied now request o r reason h in
      let same : r.1 ≡ b = decide_refused now id request o b reason e in rw (e, same) refl
