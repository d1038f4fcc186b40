-- ===== src/Gateway/Settles.antt =====
-- How `invoke` of packages/kernel/src/syscall/authorize.ts settles what the authorisation reserved.
use consisten_cy.Base.{
  ℕ, ◌+◌, ◌≡◌, ◌≢◌, refl, ◌∙◌, ap, subst, String, Bool, Option, none, some, [], arith, ok, err,
  Result-cases, inl, inr,
}
use consisten_cy.Base.Dict
use consisten_cy.Identity.{Text}
use consisten_cy.Capability.{repo_write, github_publish}
use consisten_cy.Budget
use consisten_cy.Budget.{Accountant, reserved}
use consisten_cy.Budget.Settlement.{release-reserve, commit-reserve}
use consisten_cy.Broker.Data.{AuthoriseRequest, ReservationToken, Broker}
use consisten_cy.Broker.Operations.{
  authorise, commit_tokens, release_tokens, on_account, reserve_request,
}
use consisten_cy.Broker.Calls.{run}
use consisten_cy.Broker.Decisions.{IsOk, IsPermitted, authorise-IsPermitted, authorise_denied}
use consisten_cy.Broker.Allows.{
  Allows, HasNoAccount, free, held, authorise-Allows, authorise_throws,
}
use consisten_cy.Gateway.{SyscallOutcome, or_zero, committed, released, handle, invoke}
use consisten_cy.Gateway.Invoke.{direct}

-- The id that is drawn for a reservation is not in use in the account of the handle.
abbrev pub IsFresh : String → String → Broker → Type 0
IsFresh id handle b =
    (a : Accountant) → Dict.get handle b.accountants ≡ some a → Dict.get id a.reservations ≡ none

on_account_lem :
    (h : String) (f : Accountant → Accountant) (b : Broker) (a : Accountant)
    → Dict.get h b.accountants ≡ some a
    → (on_account h f b).accountants ≡ Dict.set h (f a) b.accountants
on_account_lem h f b a e = rw (e, on_account) refl

-- A change of the account that was written last.
on_written :
    (h : String) (f : Accountant → Accountant) (a : Accountant) (b b' : Broker)
    → b'.accountants ≡ Dict.set h a b.accountants
    → (on_account h f b').accountants ≡ Dict.set h (f a) b.accountants
on_written h f a b b' same =
    let found : Dict.get h b'.accountants ≡ some a =
      ap (Dict.get h) same ∙ ground (arith, Dict.get-set h h a b.accountants) in
    on_account_lem h f b' a found
    ∙ (ap (Dict.set h (f a)) same ∙ Dict.set-set h (f a) a b.accountants)

pub released_lem :
    (id : String) (request : AuthoriseRequest) (b : Broker) (o : Option ReservationToken)
    (b' : Broker)
    → IsFresh id request.handle b
    → Allows id request b o b'
    → (released o b').accountants ≡ b.accountants
unfolding release_tokens
released_lem id request b o b' fresh (free n same) = same
released_lem id request b o b' fresh (held a e r same) =
    let asked = reserve_request request.tokens_to_reserve in
    on_written request.handle (Budget.release id) (Budget.reserve id asked a).1 b b' same
    ∙ (ap (λ x. Dict.set request.handle x b.accountants) (release-reserve id asked a (fresh a e))
        ∙ Dict.set-get request.handle a b.accountants e)

-- What a call that succeeds costs: nothing where its capability has no budget or no account, else one
-- call and the usage that the handler reports.
pub data Charges {T : Type 0} (request : AuthoriseRequest) (outcome : SyscallOutcome T)
    (b b' : Broker) : Type 0 where
  nothing :
      HasNoAccount request.handle b → b'.accountants ≡ b.accountants → Charges request outcome b b'
  usage :
      (a : Accountant)
      → Dict.get request.handle b.accountants ≡ some a
      → b'.accountants
        ≡ Dict.set request.handle
            (record a {
              used_calls = a.used_calls + 1;
              used_tokens = a.used_tokens + or_zero outcome.tokens;
              used_cost_usd_micros = a.used_cost_usd_micros + or_zero outcome.cost_usd_micros;
            })
            b.accountants
      → Charges request outcome b b'

committed-Charges :
    {T : Type 0} (id : String) (request : AuthoriseRequest) (outcome : SyscallOutcome T)
    (b : Broker) (o : Option ReservationToken) (b' : Broker)
    → IsFresh id request.handle b
    → Allows id request b o b'
    → Charges request outcome b (committed o outcome b')
unfolding commit_tokens
committed-Charges id request outcome b o b' fresh (free n same) = nothing n same
committed-Charges id request outcome b o b' fresh (held a e r same) =
    let asked = reserve_request request.tokens_to_reserve in
    let f = Budget.commit id (or_zero outcome.tokens) (or_zero outcome.cost_usd_micros) in
    usage a e (
      on_written request.handle f (Budget.reserve id asked a).1 b b' same
      ∙ ap (λ x. Dict.set request.handle x b.accountants)
          (commit-reserve id asked (or_zero outcome.tokens) (or_zero outcome.cost_usd_micros) a
            (fresh a e) r))

module _ (minimatch : Text → Text → Bool) (T : Type 0) {H : Type 0} where
  -- A handler that fails costs nothing: each account is as it was before the call, whether or not
  -- the call was allowed, if the id drawn for the reservation was new.
  pub invoke_failed :
      (now : ℕ) (id : String) (request : AuthoriseRequest) (e : H) (b : Broker)
      → request.action ≢ repo_write
      → request.action ≢ github_publish
      → IsFresh id request.handle b
      → (invoke minimatch {T = T} now id request [] (err e) b).1.accountants ≡ b.accountants
  unfolding run
  invoke_failed now id request e b w p fresh =
      rw (direct minimatch {T = T} now id request [] (err e) b w p)
        (elim (Result-cases (authorise minimatch now id request b).0) [
          | inl (o, good) ↦ rw good (
              released_lem id request b o (authorise minimatch now id request b).1 fresh
                (authorise-Allows minimatch now id request b o good))
          | inr (f, bad) ↦
              let (reason, same) = authorise_throws minimatch now id request b f bad in
              let after = authorise_denied minimatch now id request b reason (bad ∙ ap err same) in
              rw (bad, after) refl
        ])

module _ (minimatch : Text → Text → Bool) {H T : Type 0} where
  -- A permitted inline call whose handler succeeds returns the handler's value. If its capability has a
  -- budget and an account, one call and the usage that the handler reports are charged to the account
  -- and nothing is held for the call any longer; if it has not, every account is as it was. The id drawn
  -- for the reservation was new, and nothing else is called meanwhile.
  pub invoke_served :
      (now : ℕ) (id : String) (request : AuthoriseRequest) (outcome : SyscallOutcome T) (b : Broker)
      → request.action ≢ repo_write
      → request.action ≢ github_publish
      → IsFresh id request.handle b
      → IsPermitted minimatch now request b
      → ((invoke minimatch {H = H} now id request [] (ok outcome) b).0 ≡ ok outcome.value)
        × Charges request outcome b (invoke minimatch {H = H} now id request [] (ok outcome) b).1
  unfolding run
  invoke_served now id request outcome b w p fresh permitted =
      rw (direct minimatch {H = H} now id request [] (ok outcome) b w p)
        (elim (Result-cases (authorise minimatch now id request b).0) [
          | inl (o, good) ↦ rw good (
            refl,
            committed-Charges id request outcome b o (authorise minimatch now id request b).1 fresh
                (authorise-Allows minimatch now id request b o good),
          )
          | inr (f, bad) ↦
              absurd
                (subst IsOk bad ((authorise-IsPermitted minimatch now id request b).1 permitted))
        ])
