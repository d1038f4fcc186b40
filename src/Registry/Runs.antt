-- ===== src/Registry/Runs.antt =====
-- packages/kernel/src/run/registry.ts.
use consisten_cy.Base.{ℕ, String, Bool, Option, none, some, ok, err, Exec, leb, if◌then◌else◌}
use consisten_cy.Base.Dict
use consisten_cy.Base.Dict.{Dict}
use consisten_cy.Run.{Run, RunState, CreateRunRequest, created, can_transition_run}
use consisten_cy.Fault.{Fault, run_exists, unknown_run, run_transition, deadline_not_in_future}

-- A deadline, where one is given, has to lie ahead of `now`.
abbrev pub is_past : Option ℕ → ℕ → Bool
is_past none now = Bool.false
is_past (some deadline) now = leb deadline now

abbrev new_run : ℕ → CreateRunRequest → Run
new_run now request = record {
  id = request.id;
  state = created;
  created_at = now;
  deadline = request.deadline;
  token_budget = request.token_budget;
  cost_budget_usd_micros = request.cost_budget_usd_micros;
  wall_time_budget_ms = request.wall_time_budget_ms;
}

unfoldable pub create : ℕ → CreateRunRequest → Exec (Dict Run) Fault Run
create now request runs =
    if Dict.has request.id runs
    then (err (run_exists request.id), runs)
    else if is_past request.deadline now
    then (err deadline_not_in_future, runs)
    else (ok (new_run now request), Dict.set request.id (new_run now request) runs)

-- The step of a run that is there.
abbrev move : String → RunState → Run → Exec (Dict Run) Fault Run
move id to run runs =
    if can_transition_run run.state to
    then (ok (record run { state = to }), Dict.set id (record run { state = to }) runs)
    else (err (run_transition run.state to), runs)

unfoldable pub transition : String → RunState → Exec (Dict Run) Fault Run
transition id to runs = elim (Dict.get id runs) [
  | none ↦ (err (unknown_run id), runs)
  | some run ↦ move id to run runs
]
