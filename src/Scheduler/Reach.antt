-- ===== src/Scheduler/Reach.antt =====
-- Chains of legal transitions: what several transitions in a row can do, whichever they are.
use consisten_cy.Base.{
  ℕ, List, ◌≡◌, refl, String, true, Option, some, arith, subst, sym, Result, ok, continue, ◌>>=◌,
}
use consisten_cy.Base.Dict
use consisten_cy.Base.Dict.{Dict}
use consisten_cy.Run.{Run}
use consisten_cy.Agent.{Agent, AgentState, is_terminal}
use consisten_cy.Fault.{Fault}
use consisten_cy.Registry.Agents.{Patch}
use consisten_cy.Scheduler.Data.{Scheduler, CancelCause, SchedulerEvent}
use consisten_cy.Scheduler.Core.{Action}
use consisten_cy.Scheduler.Moved.{Moved, Inv, Moved-Inv, get_after}
use consisten_cy.Scheduler.Shapes.{Did, refused, idle, stepped}

-- The agents, the queue, the counter and the agents' causes are left alone.
pub record Quiet (s s' : Scheduler) : Type 0 where
  pub same_agents : s'.agents ≡ s.agents
  pub same_queue : s'.ready_queue ≡ s.ready_queue
  pub same_count : s'.running_count ≡ s.running_count
  pub same_causes : s'.agent_cancel_causes ≡ s.agent_cancel_causes
  pub same_limit : s'.max_running_agents ≡ s.max_running_agents

-- What concerns only runs, the allocation counter and the events is quiet.
pub beside :
    (s : Scheduler) (runs : Dict Run) (causes : Dict CancelCause) (n : ℕ)
    (events : List SchedulerEvent)
    → Quiet s
        (record s { runs = runs; run_cancel_causes = causes; cancel_sequence = n; events = events })
beside s runs causes n events = record {
  same_agents = refl;
  same_queue = refl;
  same_count = refl;
  same_causes = refl;
  same_limit = refl;
}

pub data Reach (s : Scheduler) : Scheduler → Type 0 where
  here : Reach s s
  move :
      {t u : Scheduler} {i : String} {a : Agent} {to : AgentState} {p : Option Patch}
      → Reach s t
      → Moved t u i a to p
      → Reach s u
  quiet : {t u : Scheduler} → Reach s t → Quiet t u → Reach s u

pub Reach-trans : {s t u : Scheduler} → Reach s t → Reach t u → Reach s u
Reach-trans r here = r
Reach-trans r (move q m) = move (Reach-trans r q) m
Reach-trans r (quiet q k) = quiet (Reach-trans r q) k

pub Quiet-Inv : {s s' : Scheduler} → Quiet s s' → Inv s → Inv s'
Quiet-Inv q v = record {
  distinct = subst Dict.HasDistinctKeys (sym q.same_agents) v.distinct;
  keyed = λ i a h. v.keyed i a (subst (λ d. Dict.get i d ≡ some a) q.same_agents h);
  queued = λ i. ground (arith, v.queued i, q.same_agents, q.same_queue);
  counted = ground (arith, v.counted, q.same_agents, q.same_count);
  bounded = ground (arith, v.bounded, q.same_count, q.same_limit);
  caused = λ i. ground (arith, v.caused i, q.same_agents, q.same_causes);
}

pub Reach-Inv : {s t : Scheduler} → Inv s → Reach s t → Inv t
Reach-Inv v here = v
Reach-Inv v (move r m) = Moved-Inv m (Reach-Inv v r)
Reach-Inv v (quiet r q) = Quiet-Inv q (Reach-Inv v r)

-- A final state is kept: the record of such an agent does not change at all.
pub Reach-terminal :
    {s t : Scheduler} (i : String) (a : Agent)
    → Dict.get i s.agents ≡ some a
    → is_terminal a.state ≡ true
    → Reach s t
    → Dict.get i t.agents ≡ some a
Reach-terminal i a h final here = h
Reach-terminal i a h final (move {t} r m) =
    ground (arith, Reach-terminal i a h final r, get_after m i, m.found, m.legal)
Reach-terminal i a h final (quiet r q) =
    subst (λ d. Dict.get i d ≡ some a) (sym q.same_agents) (Reach-terminal i a h final r)

pub Did-Reach :
    {A : Type 0} {s : Scheduler} {r : Result Fault A × Scheduler} → Did s r → Reach s r.1
Did-Reach (refused e) = here
Did-Reach (idle x) = here
Did-Reach (stepped x i a to p m) = move here m

-- The method returns, after a chain of transitions.
pub data Ends {A : Type 0} (s : Scheduler) : Result Fault A × Scheduler → Type 0 where
  ends : {s' : Scheduler} (x : A) → Reach s s' → Ends s (ok x, s')

pub Ends-Reach :
    {A : Type 0} {s : Scheduler} {r : Result Fault A × Scheduler} → Ends s r → Reach s r.1
Ends-Reach (ends x r) = r

Ends-continue :
    {A B : Type 0} {s : Scheduler} (f : A → Action B) {r : Result Fault A × Scheduler}
    → Ends s r
    → ((x : A) (t : Scheduler) → Reach s t → Ends s (f x t))
    → Ends s (continue r.0 f r.1)
Ends-continue f (ends {s'} x r) rest = rest x s' r

pub Ends-bind :
    {A B : Type 0} (s t : Scheduler) (m : Action A) (f : A → Action B)
    → Ends s (m t)
    → ((x : A) (u : Scheduler) → Reach s u → Ends s (f x u))
    → Ends s ((m >>= f) t)
Ends-bind s t m f first rest = Ends-continue f first rest
