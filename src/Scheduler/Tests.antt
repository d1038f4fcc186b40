-- ===== src/Scheduler/Tests.antt =====
-- Runs of packages/kernel/src/scheduler/scheduler.ts on a concrete scheduler.
use consisten_cy.Base.{
  ℕ, ◌≡◌, ◌≢◌, refl, String, Option, none, some, List, [], ◌∷◌, err, ◌++◌, string_dec, count,
}
use consisten_cy.Base.Dict
use consisten_cy.Base.Int.{ℤ}
use consisten_cy.Capability.{ring3}
use consisten_cy.Run.{Run, RunState, CreateRunRequest}
use consisten_cy.Agent.{Agent, AgentState, RegisterAgentRequest, ExecutionDomain, cancelled}
use consisten_cy.Fault.{out_of_fuel, agent_transition}
use consisten_cy.Scheduler.Data.{Scheduler, explicit, create_cancel_cause}
use consisten_cy.Scheduler.Core.{
  construct, assert_state, change_state, enqueue, dequeue, leave_running, cancel_agent_internal,
}
use consisten_cy.Registry.Runs.{create, transition}
use consisten_cy.Registry.Agents
use consisten_cy.Registry.Agents.{register, adopt, check_parent, walk_chain}
use consisten_cy.Scheduler.Agents.{register_agent, make_ready, cancel_agent, wake}
use consisten_cy.Scheduler.Runs.{register_run, activate_run, cancel_run}
use consisten_cy.Scheduler.Admit.{admit}
use consisten_cy.Scheduler.Tree.{cancel_agent_tree}
use consisten_cy.Scheduler.Calls.{
  Call, registers_run, activates_run, registers_agent, readies, cancels_run, wakes, cancels_agent,
  run, step,
}
use consisten_cy.Scheduler.System.{System}
use consisten_cy.Scheduler.Settled.{Within}
use consisten_cy.Scheduler.CancelRun.{CancelsRun, cancel_run_lem}
use consisten_cy.Scheduler.Admission.{Admits, admit-Admits}
use consisten_cy.Scheduler.History.{run-System, run-ended}
use consisten_cy.Scheduler.Atomic.{step_atomic}
use consisten_cy.Scheduler.TreeSteps.{cancel_agent_tree-Walked}

abbrev a_run : CreateRunRequest
a_run = record {
  id = "r";
  deadline = none;
  token_budget = none;
  cost_budget_usd_micros = none;
  wall_time_budget_ms = none;
}

abbrev an_agent : String → Option String → ℤ → RegisterAgentRequest
an_agent id parent priority = record {
  id = id;
  run_id = "r";
  priority = priority;
  parent = parent;
  context_image = none;
  capabilities = none;
  logical_ring = none;
  execution_domain = ExecutionDomain.in_process;
  model_policy = none;
  token_budget = none;
  cost_budget_usd_micros = none;
  wall_time_budget_ms = none;
  deadline = none;
}

abbrev start : Scheduler
start = record {
  runs = [];
  agents = [];
  ready_queue = [];
  running_count = 0;
  run_cancel_causes = [];
  agent_cancel_causes = [];
  cancel_sequence = 0;
  events = [];
  max_running_agents = 2;
}

abbrev script : List (ℕ × Call)
script =
    (1, registers_run a_run)
    ∷ (2, activates_run "r")
    ∷ (3, registers_agent (an_agent "a" none (ℤ.pos 1)))
    ∷ (4, registers_agent (an_agent "b" (some "a") (ℤ.pos 2)))
    ∷ (5, readies "a")
    ∷ (6, readies "b")
    ∷ []

abbrev busy : Scheduler
busy = run script start

run-System_example : System busy
unfolding construct
run-System_example = run-System 2 start script refl

busy-System : System busy
unfolding construct
busy-System = run-System 2 start script refl

abbrev active_r : Run
active_r = record {
  id = "r";
  state = RunState.active;
  created_at = 1;
  deadline = none;
  token_budget = none;
  cost_budget_usd_micros = none;
  wall_time_budget_ms = none;
}

busy_run : Dict.get "r" busy.runs ≡ some active_r
unfolding Dict.get Dict.set Dict.has run step register_run create activate_run transition
    register_agent register adopt check_parent walk_chain make_ready assert_state change_state
    Agents.transition enqueue string_dec count
busy_run = refl

cancel_run_lem_example :
    CancelsRun "r" active_r
      (create_cancel_cause explicit 9 none busy.cancel_sequence).0
      busy
      (cancel_run 9 "r" none busy)
cancel_run_lem_example = cancel_run_lem 9 "r" none active_r busy busy-System.valid busy_run refl

admit-Admits_example : Admits 9 busy (admit 9 busy)
admit-Admits_example = admit-Admits 9 busy busy-System.valid

cancel_agent_tree-Walked_example :
    Within busy (cancel_agent_tree 9 "a" none busy).1
    × ((cancel_agent_tree 9 "a" none busy).0 ≢ err out_of_fuel)
cancel_agent_tree-Walked_example = cancel_agent_tree-Walked 9 "a" none busy busy-System.valid

-- The child "b" is cancelled, then everything goes on.
abbrev without_b : Scheduler
without_b = run ((7, cancels_agent "b" none) ∷ []) busy

without_b-System : System without_b
unfolding construct run
without_b-System = run-System 2 start (script ++ (7, cancels_agent "b" none) ∷ []) refl

abbrev cancelled_b : Agent
cancelled_b = record {
  id = "b";
  run_id = "r";
  state = cancelled;
  priority = ℤ.pos 2;
  parent = some "a";
  children = [];
  context_image = none;
  capabilities = [];
  logical_ring = ring3;
  execution_domain = ExecutionDomain.in_process;
  model_policy = none;
  token_budget = none;
  cost_budget_usd_micros = none;
  wall_time_budget_ms = none;
  pending_operation = none;
  created_at = 4;
  deadline = none;
  cancel_cause_id = some 1;
}

b_cancelled : Dict.get "b" without_b.agents ≡ some cancelled_b
unfolding Dict.get Dict.set Dict.has run step register_run create activate_run transition
    register_agent register adopt check_parent walk_chain make_ready assert_state change_state
    Agents.transition enqueue string_dec count cancel_agent cancel_agent_internal dequeue
    leave_running
b_cancelled = refl

run-ended_example :
    (b : Agent) × (Dict.get "b" (run ((8, cancels_run "r" none) ∷ []) without_b).agents ≡ some b)
    × (b.state ≡ cancelled)
run-ended_example =
    run-ended without_b ((8, cancels_run "r" none) ∷ []) "b" cancelled_b without_b-System
      b_cancelled refl

waking_throws :
    (step 9 (wakes "a") busy).0 ≡ some (agent_transition AgentState.ready AgentState.ready)
unfolding Dict.get Dict.set Dict.has run step register_run create activate_run transition
    register_agent register adopt check_parent walk_chain make_ready assert_state change_state
    Agents.transition enqueue string_dec count wake
waking_throws = refl

step_atomic_example : (step 9 (wakes "a") busy).1 ≡ busy
step_atomic_example = step_atomic 9 (wakes "a") busy _ busy-System refl waking_throws
