-- ===== src/Budget/Limits.antt =====
-- The limits under every sequence of operations of packages/kernel/src/budget/accounting.ts.
use consisten_cy.Base.{ℕ, ◌+◌, ◌≤◌, ◌≡◌, ◌↔◌, refl, false, String, Option, none, some, arith}
use consisten_cy.Base.Dict
use consisten_cy.Budget.{
  Accountant, CapabilityBudget, ReserveRequest, Reservation, open_account, pending_calls,
  pending_tokens, pending_cost, calls_of, tokens_of, cost_of, reserve, commit, release, release_all,
  reservation_of, exceeds, or_zero, Shortage, reserved, refused,
}

abbrev pub AtMost : ℕ → Option ℕ → Type 0
AtMost amount none = Unit
AtMost amount (some limit) = amount ≤ limit

-- What is used and what is held, together, stay within each limit that is set.
pub record IsWithin (a : Accountant) : Type 0 where
  pub calls : AtMost (a.used_calls + pending_calls a) a.limits.max_calls
  pub tokens : AtMost (a.used_tokens + pending_tokens a) a.limits.max_tokens
  pub cost : AtMost (a.used_cost_usd_micros + pending_cost a) a.limits.max_cost_usd_micros

-- A fresh account is within any limits.
pub open_account-IsWithin : (limits : CapabilityBudget) → IsWithin (open_account limits)
unfolding open_account Dict.total
open_account-IsWithin limits = ground arith

-- A reservation is refused, or fits beside all that is used and held; either way the account stays
-- within its limits.
pub reserve-IsWithin :
    (id : String) (request : ReserveRequest) (a : Accountant)
    → IsWithin a
    → IsWithin (reserve id request a).1
unfolding reserve
reserve-IsWithin id request a w =
    let r = reservation_of request in
    ground (
      arith,
      Dict.total-le-set calls_of id r a.reservations,
      Dict.total-le-set tokens_of id r a.reservations,
      Dict.total-le-set cost_of id r a.reservations,
    )

pub release-IsWithin : (id : String) (a : Accountant) → IsWithin a → IsWithin (release id a)
unfolding release
release-IsWithin id a w = ground (
  arith,
  Dict.total-delete calls_of id a.reservations,
  Dict.total-delete tokens_of id a.reservations,
  Dict.total-delete cost_of id a.reservations,
)

pub release_all-IsWithin : (a : Accountant) → IsWithin a → IsWithin (release_all a).1
unfolding release_all Dict.total
release_all-IsWithin a w = ground arith

-- A commit stays within the limits if it uses no more than was reserved.
pub commit-IsWithin :
    (id : String) (tokens cost : ℕ) (r : Reservation) (a : Accountant)
    → IsWithin a
    → Dict.get id a.reservations ≡ some r
    → tokens ≤ r.tokens
    → cost ≤ r.cost_usd_micros
    → IsWithin (commit id tokens cost a)
unfolding commit
commit-IsWithin id tokens cost r a w found t c = ground (
  arith,
  Dict.total-delete calls_of id a.reservations,
  Dict.total-delete tokens_of id a.reservations,
  Dict.total-delete cost_of id a.reservations,
)

-- There is room for the request beside all that is used and held.
pub record Fits (request : ReserveRequest) (a : Accountant) : Type 0 where
  pub calls : AtMost (a.used_calls + pending_calls a + request.calls) a.limits.max_calls
  pub tokens :
      AtMost (a.used_tokens + pending_tokens a + or_zero request.tokens) a.limits.max_tokens
  pub cost :
      AtMost
        (a.used_cost_usd_micros + pending_cost a + or_zero request.cost_usd_micros)
        a.limits.max_cost_usd_micros

exceeds-AtMost : (limit : Option ℕ) (n : ℕ) → (exceeds limit n ≡ false) ↔ AtMost n limit
exceeds-AtMost limit n = ground arith

-- A reservation is granted exactly if the request fits within each limit that is set.
pub reserve-Fits :
    (id : String) (request : ReserveRequest) (a : Accountant)
    → ((reserve id request a).0 ≡ reserved id) ↔ Fits request a
unfolding reserve
reserve-Fits id request a =
    let calls =
      exceeds-AtMost a.limits.max_calls (a.used_calls + pending_calls a + request.calls) in
    let tokens =
      exceeds-AtMost a.limits.max_tokens
        (a.used_tokens + pending_tokens a + or_zero request.tokens) in
    let cost =
      exceeds-AtMost a.limits.max_cost_usd_micros
        (a.used_cost_usd_micros + pending_cost a + or_zero request.cost_usd_micros) in
    (
      (λ h. record {
        calls = calls.0 (ground arith);
        tokens = tokens.0 (ground arith);
        cost = cost.0 (ground arith);
      }),
      (λ f. rw (calls.1 f.calls, tokens.1 f.tokens, cost.1 f.cost) refl),
    )

-- What is refused leaves the account as it was.
pub reserve_refused :
    (id : String) (request : ReserveRequest) (a : Accountant) (s : Shortage)
    → (reserve id request a).0 ≡ refused s
    → (reserve id request a).1 ≡ a
unfolding reserve
reserve_refused id request a s h = ground arith
