-- ===== src/Scheduler/History.antt =====
-- The invariants of packages/kernel/src/scheduler/scheduler.ts over every sequence of calls.
use consisten_cy.Base.{
  ℕ, ◌≡◌, refl, sym, ◌∙◌, subst, String, true, false, some, List, [], ◌∷◌, arith, Result, ok, err,
  Result-cases, Bool-cases, Option-cases, inl, inr,
}
use consisten_cy.Base.Dict
use consisten_cy.Run.{Run, RunState, run_state_eq, is_terminal_run}
use consisten_cy.Agent.{Agent, RegisterAgentRequest, is_terminal}
use consisten_cy.Fault.{Fault}
use consisten_cy.Registry.Agents.{register}
use consisten_cy.Scheduler.Data.{Scheduler, CancelCause}
use consisten_cy.Scheduler.Core.{construct}
use consisten_cy.Scheduler.Agents.{register_agent}
use consisten_cy.Scheduler.Calls.{
  Call, registers_run, activates_run, succeeds_run, fails_run, cancels_run, registers_agent,
  readies, admits, waits, wakes, suspends, resumes, succeeds, fails, cancels_agent, cancels_tree,
  outcome, step, run,
}
use consisten_cy.Scheduler.Moved.{Inv}
use consisten_cy.Scheduler.Shapes.{Did}
use consisten_cy.Base.Dict.{Dict}
use consisten_cy.Scheduler.Reach.{Reach-terminal}
use consisten_cy.Scheduler.Settled.{IsSettled, Within, Within-refl, Did-Within}
use consisten_cy.Scheduler.CancelRun.{closed}
use consisten_cy.Scheduler.Register.{
  register_agent-Inv, register-Registered, Registered-Origin, Registered-keeps, Origin, old, fresh,
}
use consisten_cy.Scheduler.RunSteps.{
  Runs, register_run-Runs, activate_run-Runs, succeed_run-Runs, fail_run-Runs,
}
use consisten_cy.Scheduler.TreeSteps.{cancel_agent_tree-Walked}
use consisten_cy.Scheduler.Steps.{
  make_ready-Did, wait-Did, wake-Did, suspend_agent-Did, resume_agent-Did, succeed_agent-Did,
  fail_agent-Did, cancel_agent-Did,
}
use consisten_cy.Scheduler.System.{
  System, construct-System, Within-System, Cancels, apart, whole, cancel_run_cases,
  CancelsRun-IsSettled, admit-Within,
}

-- What a call keeps: the invariants, and the state of every agent that has ended.
record Keeps (s s' : Scheduler) : Type 0 where
  system : System s'
  ended :
      (i : String) (a : Agent)
      → Dict.get i s.agents ≡ some a
      → is_terminal a.state ≡ true
      → (b : Agent) × (Dict.get i s'.agents ≡ some b) × (b.state ≡ a.state)

Within-Keeps : {s t : Scheduler} → System s → Within s t → Keeps s t
Within-Keeps v w = record {
  system = Within-System v w;
  ended = λ i a h t. (a, Reach-terminal i a h t w.chain, refl);
}

Did-Keeps :
    {A : Type 0} {s : Scheduler} {r : Result Fault A × Scheduler} → System s → Did s r → Keeps s r.1
Did-Keeps v d = Within-Keeps v (Did-Within d)

Runs-Keeps :
    {A : Type 0} {s : Scheduler} {r : Result Fault A × Scheduler}
    → System s
    → Runs s r
    → Keeps s r.1
Runs-Keeps v k = record {
  system = record { valid = k.valid v.valid; settled = k.settled v.settled };
  ended = λ i a h t. (a, subst (λ d. Dict.get i d ≡ some a) (sym k.same_agents) h, refl);
}

Cancels-Keeps :
    (id : String) (c : CancelCause) (s : Scheduler) (r : Result Fault CancelCause × Scheduler)
    → System s
    → Cancels id c s r
    → Keeps s r.1
Cancels-Keeps id c s r v (apart w still) = Within-Keeps v w
Cancels-Keeps id c s r v (whole run k) = record {
  system = record { valid = k.valid; settled = CancelsRun-IsSettled id run c s r k v.settled };
  ended = λ i a h t. (closed id c a, ground (arith, k.agents i), ground arith);
}

-- A registration is tried only in a run that has not ended.
Registered-Keeps :
    (now : ℕ) (request : RegisterAgentRequest) (q : Run) (s t : Scheduler)
    → System s
    → Dict.get request.run_id s.runs ≡ some q
    → is_terminal_run q.state ≡ false
    → Inv t
    → t.runs ≡ s.runs
    → t.agents ≡ (register now request s.agents).1
    → Keeps s t
Registered-Keeps now request q s t v found live w same_runs same_agents = record {
  system = record { valid = w; settled = settled };
  ended = λ i a h f.
      let (b, e, st) =
        Registered-keeps now request s.agents _ (register-Registered now request s.agents) i a h in
      (b, subst (λ d. Dict.get i d ≡ some b) (sym same_agents) e, st);
}
  where
    entered_settled :
        (i : String) (b : Agent) (run : Run)
        → Origin s.agents request i b
        → Dict.get b.run_id s.runs ≡ some run
        → run_state_eq run.state RunState.cancelled ≡ true
        → is_terminal b.state ≡ true
    entered_settled i b run (old a e st ru) hr c =
        let final : is_terminal a.state ≡ true =
          v.settled i a run e (subst (λ k. Dict.get k s.runs ≡ some run) ru hr) c in
        ground arith
    entered_settled i b run (fresh ru) hr c = absurd (ground arith)

    settled : IsSettled t
    settled i b run hb hr c =
        entered_settled i b run
          (Registered-Origin now request s.agents _ (register-Registered now request s.agents) i b
            (subst (λ d. Dict.get i d ≡ some b) same_agents hb))
          (subst (λ d. Dict.get b.run_id d ≡ some run) same_runs hr) c

-- What `registerAgent` leaves of the runs and of the agents, where the run has not ended.
module _ (now : ℕ) (request : RegisterAgentRequest) (q : Run) (s : Scheduler)
    (found : Dict.get request.run_id s.runs ≡ some q) (live : is_terminal_run q.state ≡ false) where
  entry_runs : (register_agent now request s).1.runs ≡ s.runs
  unfolding register_agent
  entry_runs = elim (Result-cases (register now request s.agents).0) [
    | inl (a, good) ↦ rw (found, register_agent, live, good)
    | inr (f, bad) ↦ rw (found, register_agent, live, bad)
  ]

  entry_agents : (register_agent now request s).1.agents ≡ (register now request s.agents).1
  unfolding register_agent
  entry_agents = elim (Result-cases (register now request s.agents).0) [
    | inl (a, good) ↦ rw (found, register_agent, live, good)
    | inr (f, bad) ↦ rw (found, register_agent, live, bad)
  ]

register_agent-Keeps :
    (now : ℕ) (request : RegisterAgentRequest) (s : Scheduler)
    → System s
    → Keeps s (register_agent now request s).1
register_agent-Keeps now request s v = elim (Option-cases (Dict.get request.run_id s.runs)) [
  | inl e ↦ unfold register_agent in rw (e, register_agent) (Within-Keeps v (Within-refl s))
  | inr (q, e) ↦ elim (Bool-cases (is_terminal_run q.state)) [
    | inl t ↦ unfold register_agent in rw (e, register_agent, t) (Within-Keeps v (Within-refl s))
    | inr live ↦
        Registered-Keeps now request q s (register_agent now request s).1 v e live
          (register_agent-Inv now request s v.valid) (entry_runs now request q s e live)
          (entry_agents now request q s e live)
  ]
]

outcome-Keeps :
    {A : Type 0} (s : Scheduler) (r : Result Fault A × Scheduler)
    → Keeps s r.1
    → Keeps s (outcome r).1
outcome-Keeps s (ok a, t) k = k
outcome-Keeps s (err e, t) k = k

step-Keeps : (now : ℕ) (c : Call) (s : Scheduler) → System s → Keeps s (step now c s).1
unfolding step
step-Keeps now (registers_run request) s v =
    outcome-Keeps s _ (Runs-Keeps v (register_run-Runs now request s))
step-Keeps now (activates_run id) s v =
    outcome-Keeps s _ (Runs-Keeps v (activate_run-Runs now id s))
step-Keeps now (succeeds_run id) s v = outcome-Keeps s _ (Runs-Keeps v (succeed_run-Runs now id s))
step-Keeps now (fails_run id) s v = outcome-Keeps s _ (Runs-Keeps v (fail_run-Runs now id s))
step-Keeps now (cancels_run id cause) s v =
    outcome-Keeps s _ (Cancels-Keeps id _ s _ v (cancel_run_cases now id cause s v.valid))
step-Keeps now (registers_agent request) s v =
    outcome-Keeps s _ (register_agent-Keeps now request s v)
step-Keeps now (readies id) s v = outcome-Keeps s _ (Did-Keeps v (make_ready-Did now id s v.valid))
step-Keeps now admits s v = outcome-Keeps s _ (Within-Keeps v (admit-Within now s v.valid))
step-Keeps now (waits id d) s v = outcome-Keeps s _ (Did-Keeps v (wait-Did now id d s v.valid))
step-Keeps now (wakes id) s v = outcome-Keeps s _ (Did-Keeps v (wake-Did now id s v.valid))
step-Keeps now (suspends id) s v =
    outcome-Keeps s _ (Did-Keeps v (suspend_agent-Did now id s v.valid))
step-Keeps now (resumes id) s v =
    outcome-Keeps s _ (Did-Keeps v (resume_agent-Did now id s v.valid))
step-Keeps now (succeeds id) s v =
    outcome-Keeps s _ (Did-Keeps v (succeed_agent-Did now id s v.valid))
step-Keeps now (fails id) s v = outcome-Keeps s _ (Did-Keeps v (fail_agent-Did now id s v.valid))
step-Keeps now (cancels_agent id cause) s v =
    outcome-Keeps s _ (Did-Keeps v (cancel_agent-Did now id cause s v.valid))
step-Keeps now (cancels_tree id cause) s v =
    outcome-Keeps s _ (Within-Keeps v (cancel_agent_tree-Walked now id cause s v.valid).0)

run-System_from : (calls : List (ℕ × Call)) (s : Scheduler) → System s → System (run calls s)
unfolding run
run-System_from [] s v = v
run-System_from ((now, c) ∷ calls) s v =
    run-System_from calls (step now c s).1 (step-Keeps now c s v).system

-- Whatever is called, in whatever order and at whatever times, the running agents are as many as
-- the counter says and at most the limit, the queue holds each ready agent once and nobody else,
-- an agent has a cause exactly if it is cancelled, and no agent of a cancelled run can go on.
pub run-System :
    (n : ℕ) (start : Scheduler) (calls : List (ℕ × Call))
    → construct n ≡ some start
    → System (run calls start)
run-System n start calls h = run-System_from calls start (construct-System n start h)

-- An agent that has ended stays as it ended, whatever is called.
pub run-ended :
    (s : Scheduler) (calls : List (ℕ × Call)) (i : String) (a : Agent)
    → System s
    → Dict.get i s.agents ≡ some a
    → is_terminal a.state ≡ true
    → (b : Agent) × (Dict.get i (run calls s).agents ≡ some b) × (b.state ≡ a.state)
unfolding run
run-ended s [] i a v h t = (a, h, refl)
run-ended s ((now, c) ∷ calls) i a v h t =
    let k = step-Keeps now c s v in
    let (b, e, same) = k.ended i a h t in
    let (d, f, again) = run-ended (step now c s).1 calls i b k.system e (ground arith) in
    (d, f, again ∙ same)
