-- ===== src/Scheduler/Admit.antt =====
-- `admit` of packages/kernel/src/scheduler/scheduler.ts: the choice of the next agent.
use consisten_cy.Base.{
  ℕ, suc, String, Bool, true, false, Option, none, some, List, [], ◌∷◌, ok, pure, ◌>>=◌, ◌>>◌,
  if◌then◌else◌, leb,
}
use consisten_cy.Base.Dict
use consisten_cy.Base.Dict.{Dict}
use consisten_cy.Base.Int.{ℤ, ltb_ℤ}
use consisten_cy.Run.{Run, active, run_state_eq}
use consisten_cy.Agent.{Agent, ready, running, agent_state_eq}
use consisten_cy.Scheduler.Data.{deadline, agent_admitted}
use consisten_cy.Scheduler.Core.{Action, emit, change_state, dequeue, cancel_agent_internal}

-- `agent.deadline ?? run.deadline`.
abbrev pub effective_deadline : Agent → Run → Option ℕ
effective_deadline agent run = elim agent.deadline [ none ↦ run.deadline | some d ↦ some d ]

abbrev pub is_expired : ℕ → Option ℕ → Bool
is_expired now none = false
is_expired now (some d) = leb d now

abbrev pub ready_agent : String → Dict Agent → Option Agent
ready_agent id agents = elim (Dict.get id agents) [
  | none ↦ none
  | some agent ↦ if agent_state_eq agent.state ready then some agent else none
]

abbrev pub active_run : String → Dict Run → Option Run
active_run id runs = elim (Dict.get id runs) [
  | none ↦ none
  | some run ↦ if run_state_eq run.state active then some run else none
]

-- What the first pass does with one queued id.
unfoldable pub expire_one : ℕ → String → Action (Unit {0})
expire_one now id s = elim (ready_agent id s.agents) [
  | none ↦ dequeue id s
  | some agent ↦ elim (active_run agent.run_id s.runs) [
    | none ↦ pure tt s
    | some run ↦
        if is_expired now (effective_deadline agent run)
        then (do _ ← cancel_agent_internal now id deadline none; pure tt) s
        else pure tt s
  ]
]

-- The first pass, over a copy of the queue.
unfoldable pub expire_all : ℕ → List String → Action (Unit {0})
expire_all now [] = pure tt
expire_all now (id ∷ ids) = do expire_one now id; expire_all now ids

-- The priority with which a queued id competes; `none` if it is passed over.
unfoldable pub candidate : Dict Agent → Dict Run → String → Option ℤ
candidate agents runs id = elim (ready_agent id agents) [
  | none ↦ none
  | some agent ↦ elim (active_run agent.run_id runs) [
    | none ↦ none
    | some run ↦ some agent.priority
  ]
]

-- A priority beats the best so far if it is larger; any beats -∞.
abbrev pub beats : ℤ → Option (String × ℤ) → Bool
beats p none = true
beats p (some (id, q)) = ltb_ℤ q p

abbrev pub improve : String → Option ℤ → Option (String × ℤ) → Option (String × ℤ)
improve id none best = best
improve id (some p) best = if beats p best then some (id, p) else best

-- The third pass: the loop over the queue.
unfoldable pub scan :
    Dict Agent → Dict Run → List String → Option (String × ℤ) → Option (String × ℤ)
scan agents runs [] best = best
scan agents runs (id ∷ ids) best = scan agents runs ids (improve id (candidate agents runs id) best)

abbrev pub enter_running : Action (Unit {0})
enter_running s = (ok tt, record s { running_count = suc s.running_count })

unfoldable pub start : ℕ → String → Action Agent
start now id = do
  dequeue id
  snapshot ← change_state now id running none
  enter_running
  emit (agent_admitted now id snapshot.run_id)
  pure snapshot

abbrev pub start_best : ℕ → Option (String × ℤ) → Action (Option Agent)
start_best now none = pure none
start_best now (some (id, p)) = do snapshot ← start now id; pure (some snapshot)

-- The second and the third pass.
unfoldable pub choose : ℕ → Action (Option Agent)
choose now s =
    if leb s.max_running_agents s.running_count
    then pure none s
    else start_best now (scan s.agents s.runs s.ready_queue none) s

unfoldable pub admit : ℕ → Action (Option Agent)
admit now s = (do expire_all now s.ready_queue; choose now) s
