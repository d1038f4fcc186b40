-- ===== src/Registry/Agents.antt =====
-- packages/kernel/src/agent/registry.ts.
use consisten_cy.Base.{
  ℕ, zero, suc, String, Option, none, some, [], ◌∷◌, ◌++◌, Result, ok, err, Exec, ite,
  if◌then◌else◌, string_dec,
}
use consisten_cy.Base.Dict
use consisten_cy.Base.Dict.{Dict}
use consisten_cy.Capability.{ring3}
use consisten_cy.Agent.{
  Agent, AgentState, RegisterAgentRequest, PendingOperation, new, cancelled, agent_state_eq,
  can_transition_agent,
}
use consisten_cy.Fault.{
  Fault, unknown_agent, agent_exists, own_parent, unknown_parent, parent_in_other_run,
  cycle_detected, parent_chain_too_deep, deadline_not_in_future, agent_transition,
}
use consisten_cy.Registry.Runs.{is_past}

abbrev pub max_parent_depth : ℕ
max_parent_depth = 1000

-- The walk up the parent chain. The counter admits `max_parent_depth` records, so it is the number
-- of records that may still come; the walk stops at the first id that is not registered.
unfoldable pub walk_chain : ℕ → String → Dict Agent → Option String → Result Fault (Unit {0})
walk_chain steps id agents none = ok tt
walk_chain zero id agents (some p) = elim (Dict.get p agents) [
  | none ↦ ok tt
  | some cursor ↦
      ite (string_dec cursor.id id) (err (cycle_detected id)) (err parent_chain_too_deep)
]
walk_chain (suc steps) id agents (some p) = elim (Dict.get p agents) [
  | none ↦ ok tt
  | some cursor ↦
      let rest = walk_chain steps id agents cursor.parent in
      ite (string_dec cursor.id id) (err (cycle_detected id)) rest
]

unfoldable pub check_parent : RegisterAgentRequest → Dict Agent → Result Fault (Unit {0})
check_parent request agents = elim request.parent [
  | none ↦ ok tt
  | some p ↦ ite (string_dec p request.id) (err (own_parent request.id)) (elim (Dict.get p agents) [
    | none ↦ err (unknown_parent p)
    | some parent ↦
        ite (string_dec parent.run_id request.run_id)
          (walk_chain max_parent_depth request.id agents (some p))
          (err (parent_in_other_run request.id))
  ])
]

abbrev pub or_default {ℓ} : {A : Type ℓ} → Option A → A → A
or_default none d = d
or_default (some a) d = a

abbrev pub new_agent : ℕ → RegisterAgentRequest → Agent
new_agent now request = record {
  id = request.id;
  run_id = request.run_id;
  state = new;
  priority = request.priority;
  parent = request.parent;
  children = [];
  context_image = request.context_image;
  capabilities = or_default request.capabilities [];
  logical_ring = or_default request.logical_ring ring3;
  execution_domain = request.execution_domain;
  model_policy = request.model_policy;
  token_budget = request.token_budget;
  cost_budget_usd_micros = request.cost_budget_usd_micros;
  wall_time_budget_ms = request.wall_time_budget_ms;
  pending_operation = none;
  created_at = now;
  deadline = request.deadline;
  cancel_cause_id = none;
}

-- `parent.children` gains the new id.
unfoldable pub adopt : Option String → String → Dict Agent → Dict Agent
adopt none id agents = agents
adopt (some p) id agents = elim (Dict.get p agents) [
  | none ↦ agents
  | some parent ↦ Dict.set p (record parent { children = parent.children ++ id ∷ [] }) agents
]

unfoldable pub register : ℕ → RegisterAgentRequest → Exec (Dict Agent) Fault Agent
register now request agents =
    if Dict.has request.id agents
    then (err (agent_exists request.id), agents)
    else elim (check_parent request agents) [
      | err e ↦ (err e, agents)
      | ok _ ↦ if is_past request.deadline now then (err deadline_not_in_future, agents) else (
        ok (new_agent now request),
        adopt request.parent request.id (Dict.set request.id (new_agent now request) agents),
      )
    ]

-- The optional third argument of `transition`.
pub record Patch : Type 0 where
  pub pending_operation : Option PendingOperation
  pub cancel_cause_id : Option ℕ

abbrev patched_pending : Option Patch → Agent → Option PendingOperation
patched_pending none agent = agent.pending_operation
patched_pending (some p) agent = p.pending_operation

abbrev patched_cause : Option Patch → Agent → Option ℕ
patched_cause none agent = agent.cancel_cause_id
patched_cause (some p) agent = elim p.cancel_cause_id [
  | none ↦ agent.cancel_cause_id
  | some c ↦ some c
]

abbrev pub moved : AgentState → Option Patch → Agent → Agent
moved to patch agent = record agent {
  state = to;
  pending_operation = patched_pending patch agent;
  cancel_cause_id =
      if agent_state_eq to cancelled then patched_cause patch agent else agent.cancel_cause_id;
}

abbrev pub move : String → AgentState → Option Patch → Agent → Exec (Dict Agent) Fault Agent
move id to patch agent agents =
    if can_transition_agent agent.state to
    then (ok (moved to patch agent), Dict.set id (moved to patch agent) agents)
    else (err (agent_transition agent.state to), agents)

unfoldable pub transition : String → AgentState → Option Patch → Exec (Dict Agent) Fault Agent
transition id to patch agents = elim (Dict.get id agents) [
  | none ↦ (err (unknown_agent id), agents)
  | some agent ↦ move id to patch agent agents
]
