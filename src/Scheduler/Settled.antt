-- ===== src/Scheduler/Settled.antt =====
-- A cancelled run has no agent that may still go on: what each operation of
-- packages/kernel/src/scheduler/scheduler.ts has to show for it.
use consisten_cy.Base.{
  ℕ, ◌≡◌, ◌≢◌, refl, ◌∙◌, subst, String, true, Option, none, some, arith, Result, err, Bool-cases,
  Option-cases, inl, inr, string_dec,
}
use consisten_cy.Base.Dict
use consisten_cy.Run.{Run, RunState, run_state_eq}
use consisten_cy.Agent.{Agent, is_terminal}
use consisten_cy.Fault.{Fault}
use consisten_cy.Scheduler.Data.{Scheduler, CancelCause, CancelReason}
use consisten_cy.Scheduler.Core.{cancel_agent_internal, recorded_cause}
use consisten_cy.Scheduler.Moved.{Inv, get_after}
use consisten_cy.Scheduler.Shapes.{Did, refused, idle, stepped}
use consisten_cy.Scheduler.Steps.{cancel_agent_internal-Did}
use consisten_cy.Scheduler.Reach.{Reach, here, move, quiet, Reach-trans, Reach-terminal, beside}

abbrev pub IsSettled : Scheduler → Type 0
IsSettled s =
    (i : String) (a : Agent) (run : Run)
    → Dict.get i s.agents ≡ some a
    → Dict.get a.run_id s.runs ≡ some run
    → run_state_eq run.state RunState.cancelled ≡ true
    → is_terminal a.state ≡ true

-- A chain of transitions that leaves the runs alone.
pub record Within (s t : Scheduler) : Type 0 where
  pub chain : Reach s t
  pub runs : t.runs ≡ s.runs

pub Within-refl : (s : Scheduler) → Within s s
Within-refl s = record { chain = here; runs = refl }

pub Within-trans : {s t u : Scheduler} → Within s t → Within t u → Within s u
Within-trans h k = record { chain = Reach-trans h.chain k.chain; runs = k.runs ∙ h.runs }

-- No chain makes up an agent, moves it to another run or changes its children.
pub Reach-origin :
    {s t : Scheduler} (i : String) (b : Agent)
    → Reach s t
    → Dict.get i t.agents ≡ some b
    → (a : Agent) × (Dict.get i s.agents ≡ some a)
      × (b.run_id ≡ a.run_id)
      × (b.children ≡ a.children)
Reach-origin i b here h = (b, h, refl, refl)
Reach-origin i b (move {t} {i = k} {a = c} r m) h = elim (string_dec k i) [
  | yes same ↦
      let (a, e, f, g) = Reach-origin i c r (ground (arith, m.found)) in
      (a, e, ground (arith, get_after m i), ground (arith, get_after m i))
  | no other ↦ Reach-origin i b r (ground (arith, get_after m i))
]
Reach-origin i b (quiet r q) h =
    Reach-origin i b r (subst (λ d. Dict.get i d ≡ some b) q.same_agents h)

pub Within-IsSettled : {s t : Scheduler} → Within s t → IsSettled s → IsSettled t
Within-IsSettled {s} {t} w settled i b run hb hr c =
    let (a, ha, same, kids) = Reach-origin i b w.chain hb in
    let final : is_terminal a.state ≡ true =
      settled i a run ha
        (subst (λ d. Dict.get a.run_id d ≡ some run) w.runs
          (subst (λ k. Dict.get k t.runs ≡ some run) same hr))
        c in
    let kept : Dict.get i t.agents ≡ some a = Reach-terminal i a ha final w.chain in ground arith

pub Did-Within :
    {A : Type 0} {s : Scheduler} {r : Result Fault A × Scheduler} → Did s r → Within s r.1
Did-Within (refused e) = Within-refl _
Did-Within (idle x) = Within-refl _
Did-Within (stepped x i a to p m) = record { chain = move here m; runs = m.same_runs }

pub recorded_cause-Within :
    (reason : CancelReason) (now : ℕ) (given o : Option CancelCause) (s : Scheduler)
    → Within s (recorded_cause reason now given o s).1
recorded_cause-Within reason now given (some c) s = Within-refl s
recorded_cause-Within reason now given none s = record {
  chain = quiet here (beside s _ _ _ _);
  runs = refl;
}

pub recorded_cause_returns :
    (reason : CancelReason) (now : ℕ) (given o : Option CancelCause) (s : Scheduler) (e : Fault)
    → (recorded_cause reason now given o s).0 ≢ err e
recorded_cause_returns reason now given (some c) s e = λ h. cc
recorded_cause_returns reason now given none s e = λ h. cc

-- `#cancelAgentInternal` in all its cases.
pub cancel_agent_internal-Within :
    (now : ℕ) (id : String) (reason : CancelReason) (given : Option CancelCause) (s : Scheduler)
    → Inv s
    → Within s (cancel_agent_internal now id reason given s).1
unfolding cancel_agent_internal
cancel_agent_internal-Within now id reason given s v = elim (Option-cases (Dict.get id s.agents)) [
  | inl e ↦ rw (e, cancel_agent_internal) (recorded_cause-Within reason now given _ s)
  | inr (a, e) ↦ elim (Bool-cases (is_terminal a.state)) [
    | inl t ↦ rw (e, cancel_agent_internal, t) (recorded_cause-Within reason now given _ s)
    | inr live ↦
        Did-Within (
          unfold cancel_agent_internal in
          cancel_agent_internal-Did now id reason given a s e live v)
  ]
]
