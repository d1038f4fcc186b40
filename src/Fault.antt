-- ===== src/Fault.antt =====
-- What the registries and the scheduler throw.
use consisten_cy.Base.{String}
use consisten_cy.Run.{RunState}
use consisten_cy.Agent.{AgentState}

pub data Fault : Type 0 where
  unknown_run unknown_agent run_exists agent_exists : String → Fault
  own_parent unknown_parent parent_in_other_run cycle_detected : String → Fault
  parent_chain_too_deep deadline_not_in_future : Fault
  terminal_run : RunState → Fault
  run_transition : RunState → RunState → Fault
  agent_transition : AgentState → AgentState → Fault
  already_queued : String → Fault
  subtree_too_deep : Fault
  -- The model's own: a value that the source takes as present is not.
  no_cause : String → Fault
  -- The model's own: a loop on fuel was cut short.
  out_of_fuel : Fault
