-- ===== src/Scheduler/Moved.antt =====
-- What one legal transition of one agent does to the scheduler, and the invariant that it keeps.
use consisten_cy.Base.{
  ℕ, ◌+◌, ◌≤◌, ◌≡◌, ite, String, Bool, true, false, Option, none, some, arith, count, string_dec,
  subst, sym, ap,
}
use consisten_cy.Base.Dict
use consisten_cy.Base.Dict.{total, measure}
use consisten_cy.Agent.{
  Agent, AgentState, ready, running, cancelled, agent_state_eq, can_transition_agent,
}
use consisten_cy.Registry.Agents.{Patch, moved}
use consisten_cy.Scheduler.Data.{Scheduler}

abbrev pub bit : Bool → ℕ
bit true = 1
bit false = 0

abbrev pub is_ready : AgentState → ℕ
is_ready state = bit (agent_state_eq state ready)

abbrev pub is_running : AgentState → ℕ
is_running state = bit (agent_state_eq state running)

abbrev pub is_cancelled : Option Agent → Bool
is_cancelled none = false
is_cancelled (some agent) = agent_state_eq agent.state cancelled

-- Agent `i`, which was `a`, goes to the state `to`. The queue gains or loses `i` alone, the counter
-- and the causes follow, and nothing else changes.
pub record Moved (s s' : Scheduler) (i : String) (a : Agent) (to : AgentState) (p : Option Patch)
    : Type 0 where
  pub found : Dict.get i s.agents ≡ some a
  pub legal : can_transition_agent a.state to ≡ true
  pub stored : s'.agents ≡ Dict.set i (moved to p a) s.agents
  pub queue :
      (j : String)
      → count j s'.ready_queue ≡ ite (string_dec i j) (is_ready to) (count j s.ready_queue)
  pub counter : s'.running_count + is_running a.state ≡ s.running_count + is_running to
  pub capacity : s'.running_count ≤ s.max_running_agents
  pub causes :
      (j : String)
      → Dict.has j s'.agent_cancel_causes
        ≡ ite (string_dec i j) (agent_state_eq to cancelled) (Dict.has j s.agent_cancel_causes)
  pub same_runs : s'.runs ≡ s.runs
  pub same_run_causes : s'.run_cancel_causes ≡ s.run_cancel_causes
  pub same_limit : s'.max_running_agents ≡ s.max_running_agents

abbrev pub running_bit : Agent → ℕ
running_bit agent = is_running agent.state

abbrev pub ready_bit : Agent → ℕ
ready_bit agent = is_ready agent.state

pub record Inv (s : Scheduler) : Type 0 where
  pub distinct : Dict.HasDistinctKeys s.agents
  pub keyed : (i : String) (a : Agent) → Dict.get i s.agents ≡ some a → a.id ≡ i
  pub queued : (i : String) → count i s.ready_queue ≡ measure ready_bit (Dict.get i s.agents)
  pub counted : s.running_count ≡ total running_bit s.agents
  pub bounded : s.running_count ≤ s.max_running_agents
  pub caused : (i : String) → Dict.has i s.agent_cancel_causes ≡ is_cancelled (Dict.get i s.agents)

module _ {s s' : Scheduler} {i : String} {a : Agent} {to : AgentState} {p : Option Patch}
    (m : Moved s s' i a to p) where
  pub get_after :
      (j : String)
      → Dict.get j s'.agents ≡ ite (string_dec i j) (some (moved to p a)) (Dict.get j s.agents)
  get_after j =
      subst (λ d. Dict.get j d ≡ ite (string_dec i j) (some (moved to p a)) (Dict.get j s.agents))
        (sym m.stored) (Dict.get-set i j (moved to p a) s.agents)

  pub Moved-keyed : Inv s → (j : String) (b : Agent) → Dict.get j s'.agents ≡ some b → b.id ≡ j
  Moved-keyed v j b h = ground (arith, get_after j, m.found, v.keyed j b, v.keyed i a)

  pub Moved-queued :
      Inv s → (j : String) → count j s'.ready_queue ≡ measure ready_bit (Dict.get j s'.agents)
  Moved-queued v j = ground (arith, get_after j, m.queue j, v.queued j)

  pub Moved-counted : Inv s → s'.running_count ≡ total running_bit s'.agents
  Moved-counted v = ground (
    arith,
    ap (total running_bit) m.stored,
    Dict.total-set running_bit i (moved to p a) s.agents,
    m.counter,
    m.found,
    v.counted,
  )

  pub Moved-caused :
      Inv s → (j : String) → Dict.has j s'.agent_cancel_causes ≡ is_cancelled (Dict.get j s'.agents)
  Moved-caused v j = ground (arith, get_after j, m.causes j, v.caused j)

  -- A legal transition keeps the invariant.
  pub Moved-Inv : Inv s → Inv s'
  Moved-Inv v = record {
    distinct =
        subst Dict.HasDistinctKeys (sym m.stored)
          (Dict.set-HasDistinctKeys i (moved to p a) s.agents v.distinct);
    keyed = Moved-keyed v;
    queued = Moved-queued v;
    counted = Moved-counted v;
    bounded = ground (arith, m.same_limit, m.capacity);
    caused = Moved-caused v;
  }
