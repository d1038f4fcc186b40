-- ===== src/Broker/Issue.antt =====
-- What `issue` of packages/kernel/src/capability/broker.ts gives out, and to whom.
use consisten_cy.Base.{
  ℕ, ◌≡◌, ◌↔◌, refl, sym, subst, String, Bool, true, false, none, some, arith, includes, Bool-cases,
  Option-cases, inl, inr,
}
use consisten_cy.Base.Dict
use mathlib.Core.Option
use consisten_cy.Identity.{PrincipalKind, kernel, Text}
use consisten_cy.Capability.{
  Action, repo_write, github_publish, audit_read, capability_issuable_ring, ring_allowed_kinds,
  kind_eq,
}
use consisten_cy.Budget.{open_account}
use consisten_cy.Broker.Data.{CapabilityRecord, IssueRequest, AuthoriseRequest, Broker}
use consisten_cy.Broker.Checks.{has_expired}
use consisten_cy.Broker.Grant.{Covers, InRun, InScope, IsAhead, has_expired_lem}
use consisten_cy.Broker.Decisions.{IsOk, HasRoom, authorise-IsPermitted}
use consisten_cy.Broker.Operations.{issue, authorise, new_record, store}

-- The kernel may hold any action; the others all but the three that only the kernel performs.
abbrev pub MayHold : PrincipalKind → Action → Type 0
MayHold kernel action = Unit
MayHold kind repo_write = ⊥
MayHold kind github_publish = ⊥
MayHold kind audit_read = ⊥
MayHold kind action = Unit

may_hold :
    (kind : PrincipalKind) (action : Action)
    → (includes kind_eq kind (ring_allowed_kinds (capability_issuable_ring action)) ≡ true)
      ↔ MayHold kind action
unfolding ring_allowed_kinds capability_issuable_ring
may_hold kind action = ground arith

-- A capability is issued exactly if the subject may hold the action and the expiry is ahead.
pub issue-IsOk :
    (now : ℕ) (handle id : String) (request : IssueRequest) (b : Broker)
    → IsOk (issue now handle id request b).0
      ↔ (MayHold request.subject.kind request.action × IsAhead now request.expires_at)
unfolding issue
issue-IsOk now handle id request b =
    let may = may_hold request.subject.kind request.action in
    let ahead = has_expired_lem now request.expires_at in
    elim (Bool-cases (
      includes kind_eq request.subject.kind
        (ring_allowed_kinds (capability_issuable_ring request.action)))) [
          | inr f ↦ rw (f, issue) ((λ h. absurd h), λ h. absurd (ground (arith, may.1 h.0, f)))
          | inl t ↦ elim (Bool-cases (has_expired now request.expires_at)) [
            | inl late ↦
                rw (t, late, issue)
                  ((λ h. absurd h), λ h. absurd (ground (arith, ahead.1 h.1, late)))
            | inr fine ↦ rw (t, fine, issue) ((λ h. (may.0 t, ahead.0 fine)), λ h. tt)
          ]
        ]

-- What is asked of the capability lies within what was issued.
pub record IsCovered (minimatch : Text → Text → Bool) (later : ℕ) (handle : String)
    (given : IssueRequest) (request : AuthoriseRequest) : Type 0 where
  pub same_handle : request.handle ≡ handle
  pub owner : request.principal.id ≡ given.subject.id
  pub action : request.action ≡ given.action
  pub covers : Covers given.resource request.resource
  pub in_scope : InScope minimatch given.scope request
  pub in_run : InRun given.scope request
  pub ahead : IsAhead later given.expires_at
  pub room : HasRoom request given.budget (Option.map open_account given.budget)

-- The record and the account that `store` leaves.
store_found :
    (now : ℕ) (c : CapabilityRecord) (b : Broker)
    → Dict.get c.handle (store now c b).records ≡ some c
store_found now c b = elim (Option-cases c.budget) [
  | inl e ↦ rw (store, e) (ground (arith, Dict.get-set c.handle c.handle c b.records))
  | inr (limits, e) ↦ rw (store, e) (ground (arith, Dict.get-set c.handle c.handle c b.records))
]

-- An account of a fresh handle is the one that its budget opens.
store_account :
    (now : ℕ) (c : CapabilityRecord) (b : Broker)
    → Dict.get c.handle b.accountants ≡ none
    → Dict.get c.handle (store now c b).accountants ≡ Option.map open_account c.budget
store_account now c b fresh = elim (Option-cases c.budget) [
  | inl e ↦ rw (store, e) fresh
  | inr (limits, e) ↦
      rw (store, e)
        (ground (arith, Dict.get-set c.handle c.handle (open_account limits) b.accountants))
]

-- Whatever is asked within what was issued is allowed at once and later, until it expires.
pub issue-authorise :
    (minimatch : Text → Text → Bool) (now later : ℕ) (handle id reservation : String)
    (given : IssueRequest) (request : AuthoriseRequest) (b : Broker)
    → MayHold given.subject.kind given.action
    → IsAhead now given.expires_at
    → Dict.get handle b.accountants ≡ none
    → IsCovered minimatch later handle given request
    → IsOk (authorise minimatch later reservation request (issue now handle id given b).1).0
unfolding issue
issue-authorise minimatch now later handle id reservation given request b may ahead fresh k =
    let c = new_record now handle id given in
    let t : includes kind_eq given.subject.kind
          (ring_allowed_kinds (capability_issuable_ring given.action))
        ≡ true =
      (may_hold given.subject.kind given.action).1 may in
    let fine : has_expired now given.expires_at ≡ false =
      (has_expired_lem now given.expires_at).1 ahead in
    rw (t, fine, issue)
      ((authorise-IsPermitted minimatch later reservation request (store now c b)).1 (record {
        c = c;
        found =
            subst (λ h. Dict.get h (store now c b).records ≡ some c) (sym k.same_handle)
              (store_found now c b);
        granted = record {
          live = refl;
          ahead = k.ahead;
          owner = sym k.owner;
          in_run = k.in_run;
          action = sym k.action;
          covers = k.covers;
          in_scope = k.in_scope;
        };
        room =
            subst (λ o. HasRoom request given.budget o)
              (sym (
                subst
                  (λ h.
                    Dict.get h (store now c b).accountants ≡ Option.map open_account given.budget)
                  (sym k.same_handle) (store_account now c b fresh)))
              k.room;
      }))
