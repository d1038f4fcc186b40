-- ===== src/Broker/Accounts.antt =====
-- The accounts of the broker stay within their limits: packages/kernel/src/capability/broker.ts.
use consisten_cy.Base.{
  ℕ, ◌≡◌, refl, subst, String, Bool, true, false, Option, none, some, arith, Option-cases, inl, inr,
  string_dec,
}
use consisten_cy.Base.Dict
use consisten_cy.Base.Dict.{Dict}
use consisten_cy.Identity.{Text}
use consisten_cy.Budget
use consisten_cy.Budget.{Accountant, CapabilityBudget, open_account}
use consisten_cy.Budget.Limits.{
  IsWithin, open_account-IsWithin, reserve-IsWithin, release-IsWithin, release_all-IsWithin,
}
use consisten_cy.Broker.Data.{CapabilityRecord, AuthoriseRequest, Broker, IssueRequest}
use consisten_cy.Broker.Checks.{check_record}
use consisten_cy.Broker.Operations.{
  issue, revoke, authorise, decide, reserve_if, settle, reserve_request, store, new_record,
  on_account, release_tokens, release_all_tokens,
}
use consisten_cy.Broker.Calls.{
  Call, issues, revokes, authorises, commits, releases, releases_all, step,
}

abbrev pub AllWithin : Broker → Type 0
AllWithin b = (h : String) (a : Accountant) → Dict.get h b.accountants ≡ some a → IsWithin a

-- Writing one account that is within its limits.
set-AllWithin :
    (b b' : Broker) (h : String) (a : Accountant)
    → b'.accountants ≡ Dict.set h a b.accountants
    → IsWithin a
    → AllWithin b
    → AllWithin b'
set-AllWithin b b' h a same w all i x e =
    let e' : Dict.get i (Dict.set h a b.accountants) ≡ some x =
      subst (λ m. Dict.get i m ≡ some x) same e in
    elim (string_dec h i) [
      | yes k ↦ subst IsWithin (ground (arith, Dict.get-set h i a b.accountants)) w
      | no k ↦ all i x (ground (arith, Dict.get-set h i a b.accountants))
    ]

same-AllWithin : (b b' : Broker) → b'.accountants ≡ b.accountants → AllWithin b → AllWithin b'
same-AllWithin b b' same all i x e = all i x (subst (λ m. Dict.get i m ≡ some x) same e)

store-AllWithin :
    (now : ℕ) (c : CapabilityRecord) (b : Broker) → AllWithin b → AllWithin (store now c b)
store-AllWithin now c b all = elim (Option-cases c.budget) [
  | inl e ↦ same-AllWithin b (store now c b) (rw (store, e) refl) all
  | inr (limits, e) ↦
      set-AllWithin b (store now c b) c.handle (open_account limits) (rw (store, e) refl)
        (open_account-IsWithin limits) all
]

issue-AllWithin :
    (now : ℕ) (handle id : String) (request : IssueRequest) (b : Broker)
    → AllWithin b
    → AllWithin (issue now handle id request b).1
unfolding issue
issue-AllWithin now handle id request b all =
    ground (arith, store-AllWithin now (new_record now handle id request) b all)

revoke-AllWithin :
    (now : ℕ) (handle by : String) (b : Broker) → AllWithin b → AllWithin (revoke now handle by b).1
unfolding revoke
revoke-AllWithin now handle by b all = elim (Option-cases (Dict.get handle b.records)) [
  | inl e ↦ same-AllWithin b (revoke now handle by b).1 (rw (e, revoke) refl) all
  | inr (c, e) ↦ same-AllWithin b (revoke now handle by b).1 (rw (e, revoke) refl) all
]

on_account-AllWithin :
    (handle : String) (f : Accountant → Accountant) (b : Broker)
    → ((a : Accountant) → IsWithin a → IsWithin (f a))
    → AllWithin b
    → AllWithin (on_account handle f b)
on_account-AllWithin handle f b keeps all = elim (Option-cases (Dict.get handle b.accountants)) [
  | inl e ↦ same-AllWithin b (on_account handle f b) (rw (e, on_account) refl) all
  | inr (a, e) ↦
      set-AllWithin b (on_account handle f b) handle (f a) (rw (e, on_account) refl)
        (keeps a (all handle a e)) all
]

release_all-AllWithin :
    (handle : String) (b : Broker) → AllWithin b → AllWithin (release_all_tokens handle b).1
unfolding release_all_tokens
release_all-AllWithin handle b all = elim (Option-cases (Dict.get handle b.accountants)) [
  | inl e ↦ same-AllWithin b (release_all_tokens handle b).1 (rw (e, release_all_tokens) refl) all
  | inr (a, e) ↦
      set-AllWithin b (release_all_tokens handle b).1 handle (Budget.release_all a).1
        (rw (e, release_all_tokens) refl) (release_all-IsWithin a (all handle a e)) all
]

settle_accounts :
    (handle : String) (r : Budget.ReserveResult × Accountant) (b : Broker)
    → (settle handle r b).1.accountants ≡ Dict.set handle r.1 b.accountants
settle_accounts handle r b = ground arith

reserve_if-AllWithin :
    (id : String) (request : AuthoriseRequest) (c : CapabilityRecord) (b : Broker)
    → AllWithin b
    → AllWithin (reserve_if id request c b).1
reserve_if-AllWithin id request c b all = elim (Option-cases c.budget) [
  | inl e ↦ same-AllWithin b (reserve_if id request c b).1 (rw (e, reserve_if) refl) all
  | inr (limits, e) ↦ elim (Option-cases (Dict.get request.handle b.accountants)) [
    | inl f ↦ same-AllWithin b (reserve_if id request c b).1 (rw (e, reserve_if, f) refl) all
    | inr (a, f) ↦
        let r = Budget.reserve id (reserve_request request.tokens_to_reserve) a in
        set-AllWithin b (reserve_if id request c b).1 request.handle r.1
          (rw (e, reserve_if, f) (settle_accounts request.handle r b))
          (reserve-IsWithin id (reserve_request request.tokens_to_reserve) a
            (all request.handle a f))
          all
  ]
]

abbrev pub is_commit : Call → Bool
is_commit (commits token tokens cost) = true
is_commit _ = false

module _ (minimatch : Text → Text → Bool) where
  decide-AllWithin :
      (now : ℕ) (id : String) (request : AuthoriseRequest) (o : Option CapabilityRecord)
      (b : Broker)
      → AllWithin b
      → AllWithin (decide minimatch now id request o b).1
  decide-AllWithin now id request none b all = all
  decide-AllWithin now id request (some c) b all =
      elim (Option-cases (check_record minimatch now request c)) [
        | inr (reason, e) ↦
            same-AllWithin b (decide minimatch now id request (some c) b).1 (rw (decide, e) refl)
              all
        | inl fine ↦
            same-AllWithin (reserve_if id request c b).1
              (decide minimatch now id request (some c) b).1 (rw (decide, fine) refl)
              (reserve_if-AllWithin id request c b all)
      ]

  -- Every call but a commit, which may report more than was reserved, keeps each account within its
  -- limits.
  pub step-AllWithin :
      (call : Call) (b : Broker)
      → is_commit call ≡ false
      → AllWithin b
      → AllWithin (step minimatch call b)
  unfolding step authorise release_tokens
  step-AllWithin (issues now handle id request) b n all =
      issue-AllWithin now handle id request b all
  step-AllWithin (revokes now handle by) b n all = revoke-AllWithin now handle by b all
  step-AllWithin (authorises now id request) b n all =
      decide-AllWithin now id request (Dict.get request.handle b.records) b all
  step-AllWithin (commits token tokens cost) b n all = cc
  step-AllWithin (releases token) b n all =
      on_account-AllWithin token.handle (Budget.release token.reservation_id) b
        (release-IsWithin token.reservation_id) all
  step-AllWithin (releases_all handle) b n all = release_all-AllWithin handle b all
