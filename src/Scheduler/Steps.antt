-- ===== src/Scheduler/Steps.antt =====
-- Each operation on one agent either throws and changes nothing, or makes one legal transition, or
-- finds nothing to do.
use consisten_cy.Base.{
  ℕ, ◌-◌, ◌≡◌, refl, String, true, false, Option, none, some, arith, erase, Option-cases,
  Bool-cases, inl, inr, includes, ok, [], ◌∷◌, ◌++◌,
}
use consisten_cy.Base.Dict
use consisten_cy.Agent.{
  Agent, AgentState, new, ready, running, suspended, succeeded, failed, cancelled, agent_state_eq,
  can_transition_agent, is_waiting, is_terminal,
}
use consisten_cy.Registry.Agents.{Patch, moved}
use consisten_cy.Scheduler.Data.{
  Scheduler, CancelCause, CancelReason, agent_state_changed, agent_cancelled, create_cancel_cause,
  explicit, WaitDetails, wait_state_by_kind,
}
use consisten_cy.Scheduler.Core.{
  assert_state, enqueue, dequeue, leave_running, cancel_patch, cancel_agent_internal,
}
use consisten_cy.Scheduler.Agents.{
  make_ready, wait, wake, suspend_agent, resume_agent, succeed_agent, fail_agent, cancel_agent,
  no_pending, wait_patch, suspendable, requeue, retire, withdraw,
}
use consisten_cy.Scheduler.Moved.{Inv, is_running}
use consisten_cy.Scheduler.Shapes.{
  Did, refused, idle, stepped, change_state_lem, leave_running_lem, not_queued, cause_missing,
  enters, yields, leaves, cancels,
}

-- The three blocks that the operations share.
module _ {s : Scheduler} (v : Inv s) (now : ℕ) (id : String) (a : Agent)
    (found : Dict.get id s.agents ≡ some a) where
  requeue-Did :
      (p : Option Patch) → can_transition_agent a.state ready ≡ true → Did s (requeue now id p s)
  unfolding enqueue
  requeue-Did p legal =
      rw (change_state_lem now id a ready p s found legal, not_queued v id a found (ground arith))
        (stepped _ id a ready p (enters v id a found p _ legal))

  retire-Did :
      (to : AgentState) (p : Option Patch)
      → agent_state_eq a.state running ≡ true
      → can_transition_agent a.state to ≡ true
      → agent_state_eq to cancelled ≡ false
      → Did s (retire now id to p s)
  unfolding leave_running
  retire-Did to p runs legal live =
      rw (change_state_lem now id a to p s found legal)
        (stepped _ id a to p (yields v id a found to p _ runs legal live))

  withdraw-Did :
      (to : AgentState)
      → can_transition_agent a.state to ≡ true
      → agent_state_eq to ready ≡ false
      → agent_state_eq to running ≡ false
      → agent_state_eq to cancelled ≡ false
      → Did s (withdraw now id to a s)
  unfolding dequeue
  withdraw-Did to legal unready unrunning live =
      rw
        (
          change_state_lem now id a to no_pending
              (record s { ready_queue = erase id s.ready_queue }) found legal,
          leave_running_lem a.state,
        )
        (stepped _ id a to no_pending
          (leaves v id a found to no_pending _ legal unready unrunning live))

-- `ready`, `resumeAgent` and `wake` put the agent back, `wait` and `succeedAgent` retire it, and
-- `suspendAgent` and `failAgent` withdraw it; all throw with the scheduler as it was.
pub make_ready-Did : (now : ℕ) (id : String) (s : Scheduler) → Inv s → Did s (make_ready now id s)
unfolding make_ready assert_state
make_ready-Did now id s v = elim (Option-cases (Dict.get id s.agents)) [
  | inl e ↦ rw e (refused _)
  | inr (a, e) ↦ elim (Bool-cases (agent_state_eq a.state new)) [
    | inl t ↦ rw (e, t) (requeue-Did v now id a e none (ground arith))
    | inr f ↦ rw (e, f) (refused _)
  ]
]

pub resume_agent-Did :
    (now : ℕ) (id : String) (s : Scheduler) → Inv s → Did s (resume_agent now id s)
unfolding resume_agent assert_state
resume_agent-Did now id s v = elim (Option-cases (Dict.get id s.agents)) [
  | inl e ↦ rw e (refused _)
  | inr (a, e) ↦ elim (Bool-cases (agent_state_eq a.state suspended)) [
    | inl t ↦ rw (e, t) (requeue-Did v now id a e none (ground arith))
    | inr f ↦ rw (e, f) (refused _)
  ]
]

pub wake-Did : (now : ℕ) (id : String) (s : Scheduler) → Inv s → Did s (wake now id s)
unfolding wake
wake-Did now id s v = elim (Option-cases (Dict.get id s.agents)) [
  | inl e ↦ rw (e, wake) (refused _)
  | inr (a, e) ↦ elim (Bool-cases (is_waiting a.state)) [
    | inl t ↦ rw (e, wake, t) (requeue-Did v now id a e no_pending (ground arith))
    | inr f ↦ rw (e, wake, f) (refused _)
  ]
]

pub succeed_agent-Did :
    (now : ℕ) (id : String) (s : Scheduler) → Inv s → Did s (succeed_agent now id s)
unfolding succeed_agent assert_state
succeed_agent-Did now id s v = elim (Option-cases (Dict.get id s.agents)) [
  | inl e ↦ rw e (refused _)
  | inr (a, e) ↦ elim (Bool-cases (agent_state_eq a.state running)) [
    | inl t ↦ rw (e, t) (retire-Did v now id a e succeeded none t (ground arith) refl)
    | inr f ↦ rw (e, f) (refused _)
  ]
]

pub wait-Did :
    (now : ℕ) (id : String) (d : WaitDetails) (s : Scheduler) → Inv s → Did s (wait now id d s)
unfolding wait assert_state
wait-Did now id d s v = elim (Option-cases (Dict.get id s.agents)) [
  | inl e ↦ rw e (refused _)
  | inr (a, e) ↦ elim (Bool-cases (agent_state_eq a.state running)) [
    | inl t ↦
        rw (e, t)
          (retire-Did v now id a e (wait_state_by_kind d) (wait_patch now d) t (ground arith)
            (ground arith))
    | inr f ↦ rw (e, f) (refused _)
  ]
]

pub suspend_agent-Did :
    (now : ℕ) (id : String) (s : Scheduler) → Inv s → Did s (suspend_agent now id s)
unfolding suspend_agent
suspend_agent-Did now id s v = elim (Option-cases (Dict.get id s.agents)) [
  | inl e ↦ rw (e, suspend_agent) (refused _)
  | inr (a, e) ↦ elim (Bool-cases (includes agent_state_eq a.state suspendable)) [
    | inl t ↦
        rw (e, suspend_agent, t) (withdraw-Did v now id a e suspended (ground arith) refl refl refl)
    | inr f ↦ rw (e, suspend_agent, f) (refused _)
  ]
]

pub fail_agent-Did : (now : ℕ) (id : String) (s : Scheduler) → Inv s → Did s (fail_agent now id s)
unfolding fail_agent
fail_agent-Did now id s v = elim (Option-cases (Dict.get id s.agents)) [
  | inl e ↦ rw (e, fail_agent) (refused _)
  | inr (a, e) ↦ elim (Bool-cases (agent_state_eq a.state failed)) [
    | inl t ↦ rw (e, fail_agent, t) (idle _)
    | inr f ↦ elim (Bool-cases (is_terminal a.state)) [
      | inl t ↦ rw (e, fail_agent, f, t) (refused _)
      | inr n ↦
          rw (e, fail_agent, f, n) (withdraw-Did v now id a e failed (ground arith) refl refl refl)
    ]
  ]
]

-- The scheduler after the cancellation of an agent that may still run.
abbrev pub after_cancel :
    ℕ → String → CancelReason → Agent → CancelCause → ℕ → Scheduler → Scheduler
after_cancel now id reason a c n s = record s {
  agents = Dict.set id (moved cancelled (cancel_patch c) a) s.agents;
  events =
      (s.events ++ agent_state_changed now id a.state cancelled ∷ [])
      ++ agent_cancelled now id reason c.cancel_id ∷ [];
  ready_queue = erase id s.ready_queue;
  running_count = s.running_count - is_running a.state;
  cancel_sequence = n;
  agent_cancel_causes = Dict.set id c s.agent_cancel_causes;
}

module _ (now : ℕ) (id : String) (reason : CancelReason) (given : Option CancelCause) (a : Agent)
    (s : Scheduler) (e : Dict.get id s.agents ≡ some a) (live : is_terminal a.state ≡ false) where
  pub cancel_agent_internal_lem :
      let c = create_cancel_cause reason now given s.cancel_sequence in
      cancel_agent_internal now id reason given s ≡ (ok c.0, after_cancel now id reason a c.0 c.1 s)
  unfolding cancel_agent_internal dequeue
  cancel_agent_internal_lem =
      let c = create_cancel_cause reason now given s.cancel_sequence in
      let not_cancelled : agent_state_eq a.state cancelled ≡ false = ground arith in
      rw (
        e,
        cancel_agent_internal,
        live,
        not_cancelled,
        change_state_lem now id a cancelled (cancel_patch c.0)
            (record s {
              ready_queue = erase id s.ready_queue;
              cancel_sequence = c.1;
              agent_cancel_causes = Dict.set id c.0 s.agent_cancel_causes;
            })
            e (ground arith),
        leave_running_lem a.state,
      )

  pub cancel_agent_internal-Did : Inv s → Did s (cancel_agent_internal now id reason given s)
  cancel_agent_internal-Did v =
      let c = create_cancel_cause reason now given s.cancel_sequence in
      rw cancel_agent_internal_lem
        (stepped c.0 id a cancelled (cancel_patch c.0) (cancels v id a e c.0 c.1 _ live))

-- `cancelAgent` answers a second call with the cause that is recorded.
pub cancel_agent-Did :
    (now : ℕ) (id : String) (given : Option CancelCause) (s : Scheduler)
    → Inv s
    → Did s (cancel_agent now id given s)
unfolding cancel_agent
cancel_agent-Did now id given s v = elim (Option-cases (Dict.get id s.agents)) [
  | inl e ↦ rw (e, cancel_agent) (refused _)
  | inr (a, e) ↦ elim (Bool-cases (agent_state_eq a.state cancelled)) [
    | inl t ↦ elim (Option-cases (Dict.get id s.agent_cancel_causes)) [
      | inl missing ↦ absurd (cause_missing v id a e t missing)
      | inr (c, recorded) ↦ rw (e, cancel_agent, t, recorded) (idle c)
    ]
    | inr n ↦ elim (Bool-cases (agent_state_eq a.state succeeded)) [
      | inl t ↦ rw (e, cancel_agent, n, t) (refused _)
      | inr m ↦ elim (Bool-cases (agent_state_eq a.state failed)) [
        | inl t ↦ rw (e, cancel_agent, n, m, t) (refused _)
        | inr k ↦
            rw (e, cancel_agent, n, m, k)
              (cancel_agent_internal-Did now id explicit given a s e (ground arith) v)
      ]
    ]
  ]
]
