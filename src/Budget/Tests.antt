-- ===== src/Budget/Tests.antt =====
-- Runs of packages/kernel/src/budget/accounting.ts on a concrete account.
use consisten_cy.Base.{◌≡◌, refl, none, some, [], ◌∷◌, string_dec, arith}
use consisten_cy.Base.Dict
use consisten_cy.Budget.{
  Accountant, CapabilityBudget, ReserveRequest, reserved, reserve, commit, release, reservation_of,
}
use consisten_cy.Budget.Limits.{IsWithin, reserve-IsWithin, commit-IsWithin}
use consisten_cy.Budget.Settlement.{release-reserve, commit-reserve}

abbrev limits : CapabilityBudget
limits = record { max_calls = some 3; max_tokens = some 100; max_cost_usd_micros = none }

abbrev request : ReserveRequest
request = record { calls = 1; tokens = some 40; cost_usd_micros = none }

-- One call is settled and one is held.
abbrev account : Accountant
account = record {
  limits = limits;
  used_calls = 1;
  used_tokens = 25;
  used_cost_usd_micros = 0;
  reservations = ("x", reservation_of request) ∷ [];
}

account-IsWithin : IsWithin account
unfolding Dict.total
account-IsWithin = ground arith

reserve-IsWithin_example : IsWithin (reserve "y" request account).1
reserve-IsWithin_example = reserve-IsWithin "y" request account account-IsWithin

x_held : Dict.get "x" account.reservations ≡ some (reservation_of request)
unfolding Dict.get string_dec
x_held = refl

commit-IsWithin_example : IsWithin (commit "x" 30 0 account)
commit-IsWithin_example =
    commit-IsWithin "x" 30 0 (reservation_of request) account account-IsWithin x_held (ground arith)
      (ground arith)

x_distinct : Dict.HasDistinctKeys account.reservations
unfolding Dict.get
x_distinct = (refl, tt)

y_free : Dict.get "y" account.reservations ≡ none
unfolding Dict.get string_dec
y_free = refl

release-reserve_example : release "y" (reserve "y" request account).1 ≡ account
release-reserve_example = release-reserve "y" request account y_free

abbrev small : ReserveRequest
small = record { calls = 1; tokens = some 10; cost_usd_micros = none }

y_granted : (reserve "y" small account).0 ≡ reserved "y"
unfolding reserve Dict.total
y_granted = refl

commit-reserve_example :
    commit "y" 8 0 (reserve "y" small account).1
    ≡ record account { used_calls = 2; used_tokens = 33; used_cost_usd_micros = 0 }
commit-reserve_example = commit-reserve "y" small 8 0 account y_free y_granted
