-- ===== src/Budget/Settlement.antt =====
-- How a reservation ends: packages/kernel/src/budget/accounting.ts, commit and release.
use consisten_cy.Base.{ℕ, ◌+◌, ◌≡◌, String, none, arith}
use consisten_cy.Base.Dict
use consisten_cy.Budget.{
  Accountant, ReserveRequest, reserved, reserve, commit, release, reservation_of,
}

-- A commit that is repeated, with whatever amounts, changes nothing.
pub commit_twice :
    (id : String) (tokens cost tokens' cost' : ℕ) (a : Accountant)
    → Dict.HasDistinctKeys a.reservations
    → commit id tokens' cost' (commit id tokens cost a) ≡ commit id tokens cost a
unfolding commit
commit_twice id tokens cost tokens' cost' a h = ground (arith, Dict.get-delete id id a.reservations)

-- A commit after a release changes nothing: the reservation is gone.
pub commit-release :
    (id : String) (tokens cost : ℕ) (a : Accountant)
    → Dict.HasDistinctKeys a.reservations
    → commit id tokens cost (release id a) ≡ release id a
unfolding commit release
commit-release id tokens cost a h = ground (arith, Dict.get-delete id id a.reservations)

-- Releasing what was just reserved under a fresh name gives the account back as it was, whether the
-- reservation was granted or refused.
pub release-reserve :
    (id : String) (request : ReserveRequest) (a : Accountant)
    → Dict.get id a.reservations ≡ none
    → release id (reserve id request a).1 ≡ a
unfolding release reserve
release-reserve id request a fresh = ground (
  arith,
  Dict.delete-set id (reservation_of request) a.reservations,
  Dict.delete-absent id a.reservations,
)

-- Committing what was just reserved adds its calls and the actual amounts to what is used, and holds
-- what was held before.
pub commit-reserve :
    (id : String) (request : ReserveRequest) (tokens cost : ℕ) (a : Accountant)
    → Dict.get id a.reservations ≡ none
    → (reserve id request a).0 ≡ reserved id
    → commit id tokens cost (reserve id request a).1 ≡ record a {
      used_calls = a.used_calls + request.calls;
      used_tokens = a.used_tokens + tokens;
      used_cost_usd_micros = a.used_cost_usd_micros + cost;
    }
unfolding commit reserve
commit-reserve id request tokens cost a fresh granted = ground (
  arith,
  Dict.delete-set id (reservation_of request) a.reservations,
  Dict.get-set id id (reservation_of request) a.reservations,
)
