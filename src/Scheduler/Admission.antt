-- ===== src/Scheduler/Admission.antt =====
-- What `admit` of packages/kernel/src/scheduler/scheduler.ts returns, in each of its cases.
use consisten_cy.Base.{
  ℕ, ◌≤◌, ◌<◌, ◌≡◌, inl, inr, String, Option, none, some, List, [], ◌∷◌, arith, Bool-cases,
  Option-cases, Result, ok, erase, All, All-count, ◌≢◌, leb, count,
}
use consisten_cy.Base.Int.{ℤ}
use consisten_cy.Run.{Run}
use consisten_cy.Agent.{Agent, running}
use consisten_cy.Fault.{Fault}
use consisten_cy.Registry.Agents.{moved}
use consisten_cy.Scheduler.Data.{Scheduler}
use consisten_cy.Scheduler.Core.{dequeue}
use consisten_cy.Scheduler.Admit.{
  ready_agent, active_run, candidate, scan, start, start_best, choose, admit,
}
use consisten_cy.Scheduler.Moved.{Inv, Moved, Moved-Inv}
use consisten_cy.Scheduler.Shapes.{change_state_lem}
use consisten_cy.Scheduler.Shapes
use consisten_cy.Scheduler.Best.{Wins, Scanned, kept, found, Loses, scan-Scanned}
use consisten_cy.Scheduler.Deadline.{
  Expired, expire_all-Expired, IsFresh, Shrinks, expelled-ready, ready_agent-get,
}
use consisten_cy.Scheduler.Reach.{Reach-Inv}

-- The second and third pass, from the scheduler `t` that the first pass leaves.
pub data Chooses (t : Scheduler) : Result Fault (Option Agent) × Scheduler → Type 0 where
  full : t.max_running_agents ≤ t.running_count → Chooses t (ok none, t)
  nobody :
      t.running_count < t.max_running_agents
      → All (λ id. candidate t.agents t.runs id ≡ none) t.ready_queue
      → Chooses t (ok none, t)
  starts :
      {u : Scheduler} (id : String) (p : ℤ) (a : Agent) (run : Run)
      → t.running_count < t.max_running_agents
      → Wins t.agents t.runs t.ready_queue id p
      → ready_agent id t.agents ≡ some a
      → active_run a.run_id t.runs ≡ some run
      → Moved t u id a running none
      → Chooses t (ok (some (moved running none a)), u)

candidate_inv :
    (t : Scheduler) (id : String) (p : ℤ)
    → candidate t.agents t.runs id ≡ some p
    → (a : Agent) × (run : Run) × (ready_agent id t.agents ≡ some a)
      × (active_run a.run_id t.runs ≡ some run)
unfolding candidate
candidate_inv t id p h = elim (Option-cases (ready_agent id t.agents)) [
  | inl e ↦ absurd (ground arith)
  | inr (a, e) ↦ elim (Option-cases (active_run a.run_id t.runs)) [
    | inl o ↦ absurd (ground arith)
    | inr (run, o) ↦ (a, run, e, o)
  ]
]

nobody_competes :
    (t : Scheduler) (ids : List String)
    → All (Loses t.agents t.runs none) ids
    → All (λ id. candidate t.agents t.runs id ≡ none) ids
nobody_competes t [] h = tt
nobody_competes t (id ∷ ids) h = elim (Option-cases (candidate t.agents t.runs id)) [
  | inl e ↦ (e, nobody_competes t ids h.1)
  | inr (q, e) ↦ absurd (ground (arith, h.0 q e))
]

choose_best :
    (now : ℕ) (t : Scheduler) (r : Option (String × ℤ))
    → Inv t
    → t.running_count < t.max_running_agents
    → Scanned t.agents t.runs t.ready_queue none r
    → Chooses t (start_best now r t)
unfolding start dequeue
choose_best now t r v free (kept all) = nobody free (nobody_competes t t.ready_queue all)
choose_best now t r v free (found id p b w) =
    let (a, run, ra, ar) = candidate_inv t id p w.competes in
    let (here, queued) = ready_agent-get id t.agents a ra in
    rw
      (change_state_lem now id a running none (record t { ready_queue = erase id t.ready_queue })
        here (ground arith))
      (starts id p a run free w ra ar (Shapes.starts v id a here _ queued free))

choose-Chooses : (now : ℕ) (t : Scheduler) → Inv t → Chooses t (choose now t)
unfolding choose
choose-Chooses now t v = elim (Bool-cases (leb t.max_running_agents t.running_count)) [
  | inl y ↦ rw y (full (ground arith))
  | inr n ↦ rw n (
      choose_best now t (scan t.agents t.runs t.ready_queue none) v (ground arith)
        (scan-Scanned t.agents t.runs t.ready_queue none))
]

-- What a call of `admit` does: the first pass leaves `mid`, where each agent is as it was or was
-- expired and is cancelled (`expired.shrinks`), and no agent that is ready in an active run has a
-- deadline behind it; the result is chosen there.
pub record Admits (now : ℕ) (s : Scheduler) (r : Result Fault (Option Agent) × Scheduler)
    : Type 0 where
  pub mid : Scheduler
  pub expired : Expired now s.ready_queue s mid
  pub fresh : (id : String) (a : Agent) → ready_agent id mid.agents ≡ some a → IsFresh now mid id
  pub chosen : Chooses mid r
  pub valid : Inv r.1

was_queued :
    (now : ℕ) (s t : Scheduler) (id : String) (a : Agent)
    → Inv s
    → Shrinks now s t
    → ready_agent id t.agents ≡ some a
    → count id s.ready_queue ≢ 0
was_queued now s t id a v h ra = λ z. elim (h id) [
  | inl x ↦ absurd (ground (arith, ra, expelled-ready now s t id x))
  | inr unmoved ↦ absurd (ground (arith, unmoved, v.queued id))
]

Chooses-Inv :
    {t : Scheduler} {r : Result Fault (Option Agent) × Scheduler} → Inv t → Chooses t r → Inv r.1
Chooses-Inv v (full h) = v
Chooses-Inv v (nobody h all) = v
Chooses-Inv v (starts id p a run free w ra ar m) = Moved-Inv m v

-- Where the invariant holds, an admission first cancels, with a cause for the deadline, agents that are
-- ready in an active run with their own deadline, or else that of the run, behind them, and leaves every
-- other agent and all runs as they were; no such expired agent is left. Then it starts the first of
-- highest priority among the agents that are queued and ready in an active run, if there is capacity and
-- such an agent, and else changes nothing more. The invariant holds after it.
pub admit-Admits : (now : ℕ) (s : Scheduler) → Inv s → Admits now s (admit now s)
unfolding admit
admit-Admits now s v =
    let (t, e) = expire_all-Expired now s.ready_queue s v in
    let w : Inv t = Reach-Inv v e.chain in
    rw e.returns (record {
      mid = t;
      expired = e;
      fresh = λ id a ra.
          All-count (IsFresh now t) id s.ready_queue e.fresh
            (was_queued now s t id a v e.shrinks ra);
      chosen = choose-Chooses now t w;
      valid = Chooses-Inv w (choose-Chooses now t w);
    })
