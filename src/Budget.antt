-- ===== src/Budget.antt =====
-- Two-phase budget accounting: packages/kernel/src/budget/accounting.ts and types.ts. Calls, tokens
-- and micro-dollars are natural numbers; `randomUUID()` is the argument `id` of `reserve`.
pub mod Limits
pub mod Settlement
pub mod Tests
use consisten_cy.Base.{
  ℕ, ◌+◌, String, Bool, true, false, Option, none, some, List, [], ltb, if◌then◌else◌,
}
use consisten_cy.Base.Dict
use consisten_cy.Base.Dict.{Dict}

pub record CapabilityBudget : Type 0 where
  pub max_calls : Option ℕ
  pub max_tokens : Option ℕ
  pub max_cost_usd_micros : Option ℕ

pub record ReserveRequest : Type 0 where
  pub calls : ℕ
  pub tokens : Option ℕ
  pub cost_usd_micros : Option ℕ

pub data Shortage : Type 0 where
  calls tokens cost : Shortage

pub data ReserveResult : Type 0 where
  reserved : String → ReserveResult
  refused : Shortage → ReserveResult

pub record Reservation : Type 0 where
  pub calls : ℕ
  pub tokens : ℕ
  pub cost_usd_micros : ℕ

pub record Accountant : Type 0 where
  pub limits : CapabilityBudget
  pub used_calls : ℕ
  pub used_tokens : ℕ
  pub used_cost_usd_micros : ℕ
  pub reservations : Dict Reservation

pub record BudgetState : Type 0 where
  pub used_calls : ℕ
  pub used_tokens : ℕ
  pub used_cost_usd_micros : ℕ
  pub reserved_calls : ℕ
  pub reserved_tokens : ℕ

unfoldable pub open_account : CapabilityBudget → Accountant
open_account limits = record {
  limits = limits;
  used_calls = 0;
  used_tokens = 0;
  used_cost_usd_micros = 0;
  reservations = [];
}

abbrev pub calls_of : Reservation → ℕ
calls_of r = r.calls

abbrev pub tokens_of : Reservation → ℕ
tokens_of r = r.tokens

abbrev pub cost_of : Reservation → ℕ
cost_of r = r.cost_usd_micros

abbrev pub pending_calls : Accountant → ℕ
pending_calls a = Dict.total calls_of a.reservations

abbrev pub pending_tokens : Accountant → ℕ
pending_tokens a = Dict.total tokens_of a.reservations

abbrev pub pending_cost : Accountant → ℕ
pending_cost a = Dict.total cost_of a.reservations

-- `limit !== undefined && amount > limit`.
abbrev pub exceeds : Option ℕ → ℕ → Bool
exceeds none amount = false
exceeds (some limit) amount = ltb limit amount

-- `amount ?? 0`.
abbrev pub or_zero : Option ℕ → ℕ
or_zero none = 0
or_zero (some n) = n

abbrev pub reservation_of : ReserveRequest → Reservation
reservation_of request = record {
  calls = request.calls;
  tokens = or_zero request.tokens;
  cost_usd_micros = or_zero request.cost_usd_micros;
}

unfoldable pub reserve : String → ReserveRequest → Accountant → ReserveResult × Accountant
reserve id request a =
    if exceeds a.limits.max_calls (a.used_calls + pending_calls a + request.calls)
    then (refused calls, a)
    else if exceeds a.limits.max_tokens (a.used_tokens + pending_tokens a + or_zero request.tokens)
    then (refused tokens, a)
    else if exceeds a.limits.max_cost_usd_micros
        (a.used_cost_usd_micros + pending_cost a + or_zero request.cost_usd_micros)
    then (refused cost, a)
    else (
      reserved id,
      record a { reservations = Dict.set id (reservation_of request) a.reservations },
    )

-- A reservation that is not there was committed or released before.
unfoldable pub commit : String → ℕ → ℕ → Accountant → Accountant
commit id actual_tokens actual_cost a = elim (Dict.get id a.reservations) [
  | none ↦ a
  | some r ↦ record a {
    reservations = Dict.delete id a.reservations;
    used_calls = a.used_calls + r.calls;
    used_tokens = a.used_tokens + actual_tokens;
    used_cost_usd_micros = a.used_cost_usd_micros + actual_cost;
  }
]

unfoldable pub release : String → Accountant → Accountant
release id a = record a { reservations = Dict.delete id a.reservations }

unfoldable pub release_all : Accountant → ℕ × Accountant
release_all a = (Dict.size a.reservations, record a { reservations = [] })

unfoldable pub state : Accountant → BudgetState
state a = record {
  used_calls = a.used_calls;
  used_tokens = a.used_tokens;
  used_cost_usd_micros = a.used_cost_usd_micros;
  reserved_calls = pending_calls a;
  reserved_tokens = pending_tokens a;
}
