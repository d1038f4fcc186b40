-- ===== src/Run.antt =====
-- A run and its states: packages/kernel/src/run/types.ts.
use consisten_cy.Base.{ℕ, String, Bool, Option, List, [], ◌∷◌, ◌==◌, includes}

pub data RunState : Type 0 where
  created active suspended succeeded failed cancelled : RunState

pub record Run : Type 0 where
  pub id : String
  pub state : RunState
  pub created_at : ℕ
  pub deadline : Option ℕ
  pub token_budget : Option ℕ
  pub cost_budget_usd_micros : Option ℕ
  pub wall_time_budget_ms : Option ℕ

pub record CreateRunRequest : Type 0 where
  pub id : String
  pub deadline : Option ℕ
  pub token_budget : Option ℕ
  pub cost_budget_usd_micros : Option ℕ
  pub wall_time_budget_ms : Option ℕ

abbrev state_rank : RunState → ℕ
state_rank created = 0
state_rank active = 1
state_rank suspended = 2
state_rank succeeded = 3
state_rank failed = 4
state_rank cancelled = 5

abbrev pub run_state_eq : RunState → RunState → Bool
run_state_eq a b = state_rank a == state_rank b

abbrev pub terminal_run_states : List RunState
terminal_run_states = succeeded ∷ failed ∷ cancelled ∷ []

abbrev pub is_terminal_run : RunState → Bool
is_terminal_run s = includes run_state_eq s terminal_run_states

abbrev pub run_transitions : RunState → List RunState
run_transitions created = active ∷ cancelled ∷ []
run_transitions active = suspended ∷ succeeded ∷ failed ∷ cancelled ∷ []
run_transitions suspended = active ∷ cancelled ∷ []
run_transitions _ = []

abbrev pub can_transition_run : RunState → RunState → Bool
can_transition_run from to = includes run_state_eq to (run_transitions from)
