-- ===== src/Agent.antt =====
-- An agent's control block and its states: packages/kernel/src/agent/types.ts and state.ts.
use consisten_cy.Base.{ℕ, String, Bool, Option, List, [], ◌∷◌, ◌==◌, includes}
use consisten_cy.Base.Int.{ℤ}
use consisten_cy.Capability.{CapabilityRef, PrivilegeRing}

pub data AgentState : Type 0 where
  new ready running wait_llm wait_tool wait_io wait_agent wait_human suspended : AgentState
  succeeded failed cancelled : AgentState

pub data ExecutionDomain : Type 0 where
  in_process worker_thread child_process : ExecutionDomain

-- What an agent waits on, and since when.
pub data PendingOperation : Type 0 where
  llm : ℕ → Option String → PendingOperation
  tool io agent human : ℕ → String → PendingOperation

-- The temperature is carried along and never read: the number as it is written.
pub record ModelPolicy : Type 0 where
  pub provider : Option String
  pub model : Option String
  pub temperature : Option String
  pub max_tokens : Option ℕ

pub record Agent : Type 0 where
  pub id : String
  pub run_id : String
  pub state : AgentState
  pub priority : ℤ
  pub parent : Option String
  pub children : List String
  pub context_image : Option String
  pub capabilities : List CapabilityRef
  pub logical_ring : PrivilegeRing
  pub execution_domain : ExecutionDomain
  pub model_policy : Option ModelPolicy
  pub token_budget : Option ℕ
  pub cost_budget_usd_micros : Option ℕ
  pub wall_time_budget_ms : Option ℕ
  pub pending_operation : Option PendingOperation
  pub created_at : ℕ
  pub deadline : Option ℕ
  pub cancel_cause_id : Option ℕ

pub record RegisterAgentRequest : Type 0 where
  pub id : String
  pub run_id : String
  pub priority : ℤ
  pub parent : Option String
  pub context_image : Option String
  pub capabilities : Option (List CapabilityRef)
  pub logical_ring : Option PrivilegeRing
  pub execution_domain : ExecutionDomain
  pub model_policy : Option ModelPolicy
  pub token_budget : Option ℕ
  pub cost_budget_usd_micros : Option ℕ
  pub wall_time_budget_ms : Option ℕ
  pub deadline : Option ℕ

abbrev state_rank : AgentState → ℕ
state_rank new = 0
state_rank ready = 1
state_rank running = 2
state_rank wait_llm = 3
state_rank wait_tool = 4
state_rank wait_io = 5
state_rank wait_agent = 6
state_rank wait_human = 7
state_rank suspended = 8
state_rank succeeded = 9
state_rank failed = 10
state_rank cancelled = 11

abbrev pub agent_state_eq : AgentState → AgentState → Bool
agent_state_eq a b = state_rank a == state_rank b

abbrev pub terminal_agent_states : List AgentState
terminal_agent_states = succeeded ∷ failed ∷ cancelled ∷ []

abbrev pub wait_agent_states : List AgentState
wait_agent_states = wait_llm ∷ wait_tool ∷ wait_io ∷ wait_agent ∷ wait_human ∷ []

abbrev pub is_terminal : AgentState → Bool
is_terminal s = includes agent_state_eq s terminal_agent_states

abbrev pub is_waiting : AgentState → Bool
is_waiting s = includes agent_state_eq s wait_agent_states

abbrev pub agent_transitions : AgentState → List AgentState
agent_transitions new = ready ∷ failed ∷ cancelled ∷ []
agent_transitions ready = running ∷ suspended ∷ failed ∷ cancelled ∷ []
agent_transitions running =
    wait_llm ∷ wait_tool ∷ wait_io ∷ wait_agent ∷ wait_human ∷ suspended ∷ succeeded ∷ failed
    ∷ cancelled ∷ []
agent_transitions suspended = ready ∷ failed ∷ cancelled ∷ []
agent_transitions succeeded = []
agent_transitions failed = []
agent_transitions cancelled = []
-- The five waiting states have one row.
agent_transitions _ = ready ∷ suspended ∷ failed ∷ cancelled ∷ []

abbrev pub can_transition_agent : AgentState → AgentState → Bool
can_transition_agent from to = includes agent_state_eq to (agent_transitions from)
