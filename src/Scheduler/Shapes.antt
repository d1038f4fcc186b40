-- ===== src/Scheduler/Shapes.antt =====
-- The shapes that a transition of one agent takes in packages/kernel/src/scheduler/scheduler.ts.
use consisten_cy.Base.{
  ℕ, suc, ◌-◌, ◌≤◌, ◌<◌, ◌≡◌, ◌≢◌, refl, String, true, false, Option, none, some, arith, count,
  erase, count-snoc, count-erase, Result, ok, err, List, [], ◌∷◌, ◌++◌,
}
use consisten_cy.Base.Dict
use consisten_cy.Agent.{
  Agent, AgentState, ready, running, cancelled, agent_state_eq, can_transition_agent, is_terminal,
}
use consisten_cy.Fault.{Fault}
use consisten_cy.Registry.Agents.{Patch, moved, transition}
use consisten_cy.Scheduler.Data.{Scheduler, SchedulerEvent, CancelCause, agent_state_changed}
use consisten_cy.Scheduler.Core.{change_state, leave_running, cancel_patch}
use consisten_cy.Scheduler.Moved.{Moved, Inv, is_running, running_bit}

pub data Did {A : Type 0} (s : Scheduler) : Result Fault A × Scheduler → Type 0 where
  refused : (e : Fault) → Did s (err e, s)
  idle : (x : A) → Did s (ok x, s)
  stepped :
      {s' : Scheduler} (x : A) (i : String) (a : Agent) (to : AgentState) (p : Option Patch)
      → Moved s s' i a to p
      → Did s (ok x, s')

pub transition_lem :
    (id : String) (a : Agent) (to : AgentState) (p : Option Patch) (agents : Dict.Dict Agent)
    → Dict.get id agents ≡ some a
    → can_transition_agent a.state to ≡ true
    → transition id to p agents ≡ (ok (moved to p a), Dict.set id (moved to p a) agents)
unfolding transition
transition_lem id a to p agents found legal = rw (found, transition, legal)

pub change_state_lem :
    (now : ℕ) (id : String) (a : Agent) (to : AgentState) (p : Option Patch) (s : Scheduler)
    → Dict.get id s.agents ≡ some a
    → can_transition_agent a.state to ≡ true
    → change_state now id to p s ≡ (
      ok (moved to p a),
      record s {
        agents = Dict.set id (moved to p a) s.agents;
        events = s.events ++ agent_state_changed now id a.state to ∷ [];
      },
    )
unfolding change_state
change_state_lem now id a to p s found legal =
    rw (found, change_state, transition_lem id a to p s.agents found legal)

pub leave_running_lem :
    (state : AgentState) (s : Scheduler)
    → leave_running state s
      ≡ (ok tt, record s { running_count = s.running_count - is_running state })
unfolding leave_running
leave_running_lem state s = ground arith

-- The three shapes of a step, over an agent that is there.
module _ {s : Scheduler} (v : Inv s) (id : String) (a : Agent)
    (found : Dict.get id s.agents ≡ some a) where
  pub not_queued : agent_state_eq a.state ready ≡ false → count id s.ready_queue ≡ 0
  not_queued h = ground (arith, v.queued id)

  queued_once : count id s.ready_queue ≤ 1
  queued_once = ground (arith, v.queued id)

  no_cause : agent_state_eq a.state cancelled ≡ false → Dict.has id s.agent_cancel_causes ≡ false
  no_cause h = ground (arith, v.caused id)

  pub cause_missing :
      agent_state_eq a.state cancelled ≡ true → Dict.get id s.agent_cancel_causes ≢ none
  unfolding Dict.has
  cause_missing h m = ground (arith, v.caused id)

  counts : is_running a.state ≤ s.running_count
  counts = ground (arith, v.counted, Dict.measure-le-total running_bit id s.agents)

  -- The agent enters the queue.
  pub enters :
      (p : Option Patch) (events : List SchedulerEvent)
      → can_transition_agent a.state ready ≡ true
      → Moved s
          (record s {
            agents = Dict.set id (moved ready p a) s.agents;
            events = events;
            ready_queue = s.ready_queue ++ id ∷ [];
          })
          id
          a
          ready
          p
  enters p events legal = record {
    found = found;
    legal = legal;
    stored = refl;
    queue = λ j. ground (arith, count-snoc j id s.ready_queue, not_queued);
    counter = ground arith;
    capacity = v.bounded;
    causes = λ j. ground (arith, no_cause);
    same_runs = refl;
    same_run_causes = refl;
    same_limit = refl;
  }

  -- A running agent yields or succeeds.
  pub yields :
      (to : AgentState) (p : Option Patch) (events : List SchedulerEvent)
      → agent_state_eq a.state running ≡ true
      → can_transition_agent a.state to ≡ true
      → agent_state_eq to cancelled ≡ false
      → Moved s
          (record s {
            agents = Dict.set id (moved to p a) s.agents;
            events = events;
            running_count = s.running_count - 1;
          })
          id
          a
          to
          p
  yields to p events runs legal live = record {
    found = found;
    legal = legal;
    stored = refl;
    queue = λ j. ground (arith, not_queued);
    counter = ground (arith, counts);
    capacity = omega (arith, v.bounded);
    causes = λ j. ground (arith, no_cause);
    same_runs = refl;
    same_run_causes = refl;
    same_limit = refl;
  }

  -- A cancellation, with the cause recorded.
  pub cancels :
      (c : CancelCause) (n : ℕ) (events : List SchedulerEvent)
      → is_terminal a.state ≡ false
      → Moved s
          (record s {
            agents = Dict.set id (moved cancelled (cancel_patch c) a) s.agents;
            events = events;
            ready_queue = erase id s.ready_queue;
            running_count = s.running_count - is_running a.state;
            cancel_sequence = n;
            agent_cancel_causes = Dict.set id c s.agent_cancel_causes;
          })
          id
          a
          cancelled
          (cancel_patch c)
  unfolding Dict.has
  cancels c n events live = record {
    found = found;
    legal = ground arith;
    stored = refl;
    queue = λ j. ground (arith, count-erase id j s.ready_queue, queued_once);
    counter = ground (arith, counts);
    capacity = omega (arith, v.bounded);
    causes = λ j. ground (arith, Dict.get-set id j c s.agent_cancel_causes);
    same_runs = refl;
    same_run_causes = refl;
    same_limit = refl;
  }

  -- An admission, where a place is free.
  pub starts :
      (events : List SchedulerEvent)
      → agent_state_eq a.state ready ≡ true
      → s.running_count < s.max_running_agents
      → Moved s
          (record s {
            agents = Dict.set id (moved running none a) s.agents;
            events = events;
            ready_queue = erase id s.ready_queue;
            running_count = suc s.running_count;
          })
          id
          a
          running
          none
  starts events queued free = record {
    found = found;
    legal = ground arith;
    stored = refl;
    queue = λ j. ground (arith, count-erase id j s.ready_queue, queued_once);
    counter = ground arith;
    capacity = free;
    causes = λ j. ground (arith, no_cause);
    same_runs = refl;
    same_run_causes = refl;
    same_limit = refl;
  }

  -- The agent leaves the queue and the running ones for a state that is neither.
  pub leaves :
      (to : AgentState) (p : Option Patch) (events : List SchedulerEvent)
      → can_transition_agent a.state to ≡ true
      → agent_state_eq to ready ≡ false
      → agent_state_eq to running ≡ false
      → agent_state_eq to cancelled ≡ false
      → Moved s
          (record s {
            agents = Dict.set id (moved to p a) s.agents;
            events = events;
            ready_queue = erase id s.ready_queue;
            running_count = s.running_count - is_running a.state;
          })
          id
          a
          to
          p
  leaves to p events legal unready unrunning live = record {
    found = found;
    legal = legal;
    stored = refl;
    queue = λ j. ground (arith, count-erase id j s.ready_queue, queued_once);
    counter = ground (arith, counts);
    capacity = omega (arith, v.bounded);
    causes = λ j. ground (arith, no_cause);
    same_runs = refl;
    same_run_causes = refl;
    same_limit = refl;
  }
