-- ===== src/Task/Terminal/Operations.antt =====
-- The invariant through `transition_run` and `expire_due_runs`.
use hermes_orchestrator.Prelude.{ℕ, refl, String, Option, List, [], ◌∷◌}
use hermes_orchestrator.Models.Status.{RunStatus}
use hermes_orchestrator.Models.Rows.{Run}
use hermes_orchestrator.Models.Settings.{Settings, TextLibrary}
use hermes_orchestrator.Store.Keeps.{Keeps, Keeps-bind, Keeps-when, keeps_rules}
use hermes_orchestrator.Task.Transition.{moved_run, follow_run, account_outcome, transition_run}
use hermes_orchestrator.Task.Expiry.{timed_out_run, expire_run, expire_runs, expire_due_runs}
use hermes_orchestrator.Task.Terminal.{EndedRun, WellFormed}
use hermes_orchestrator.Task.Terminal.Steps.{
  save_run-WellFormed, save_task-WellFormed, add_audit-WellFormed, get_task-WellFormed,
  get_run-WellFormed, ingest-WellFormed, record_run_outcome-WellFormed,
}

ruleset steps = (
  keeps_rules, save_task-WellFormed, add_audit-WellFormed, get_task-WellFormed, get_run-WellFormed,
  ingest-WellFormed, record_run_outcome-WellFormed,
)

moved_run-EndedRun :
    (st : RunStatus) (code summary : Option String) (now : ℕ) (r : Run)
    → EndedRun (moved_run st code summary now r)
unfolding moved_run
moved_run-EndedRun RunStatus.dispatching code summary now r h = cc
moved_run-EndedRun RunStatus.running code summary now r h = cc
moved_run-EndedRun RunStatus.awaiting_approval code summary now r h = cc
moved_run-EndedRun RunStatus.completed code summary now r h = record {
  lease_owner = refl;
  lease_expires_at = refl;
  finished_at = refl;
}
moved_run-EndedRun RunStatus.failed code summary now r h = record {
  lease_owner = refl;
  lease_expires_at = refl;
  finished_at = refl;
}
moved_run-EndedRun RunStatus.cancelled code summary now r h = record {
  lease_owner = refl;
  lease_expires_at = refl;
  finished_at = refl;
}
moved_run-EndedRun RunStatus.timed_out code summary now r h = record {
  lease_owner = refl;
  lease_expires_at = refl;
  finished_at = refl;
}

timed_out_run-EndedRun : (now : ℕ) (r : Run) → EndedRun (timed_out_run now r)
unfolding timed_out_run
timed_out_run-EndedRun now r h = record {
  lease_owner = refl;
  lease_expires_at = refl;
  finished_at = refl;
}

follow_run-WellFormed : (st : RunStatus) (r : Run) → Keeps WellFormed (follow_run st r)
unfolding follow_run
follow_run-WellFormed st r = search steps

account_outcome-WellFormed :
    (lib : TextLibrary) (settings : Settings) (actor_id : String) (r : Run) (now : ℕ)
    → Keeps WellFormed (account_outcome lib settings actor_id r now)
unfolding account_outcome
account_outcome-WellFormed lib settings actor_id r now = search (steps, Keeps-when)

pub transition_run-WellFormed :
    (lib : TextLibrary) (settings : Settings) (run_id : ℕ) (st : RunStatus) (actor_id : String)
    (code summary : Option String) (now : Option ℕ)
    → Keeps WellFormed (transition_run lib settings run_id st actor_id code summary now)
unfolding transition_run
transition_run-WellFormed lib settings run_id st actor_id code summary now =
    search
      (
        steps, save_run-WellFormed, moved_run-EndedRun, follow_run-WellFormed,
        account_outcome-WellFormed,
      )
      depth 14

expire_run-WellFormed :
    (lib : TextLibrary) (settings : Settings) (actor_id : String) (now : ℕ) (r : Run)
    → Keeps WellFormed (expire_run lib settings actor_id now r)
unfolding expire_run
expire_run-WellFormed lib settings actor_id now r =
    search (steps, save_run-WellFormed, timed_out_run-EndedRun) depth 14

expire_runs-WellFormed :
    (lib : TextLibrary) (settings : Settings) (actor_id : String) (now : ℕ) (rs : List Run)
    → Keeps WellFormed (expire_runs lib settings actor_id now rs)
unfolding expire_runs
expire_runs-WellFormed lib settings actor_id now [] = search keeps_rules
expire_runs-WellFormed lib settings actor_id now (r ∷ rs) =
    Keeps-bind (expire_run lib settings actor_id now r)
      (λ _. expire_runs lib settings actor_id now rs)
      (expire_run-WellFormed lib settings actor_id now r)
      (λ _. expire_runs-WellFormed lib settings actor_id now rs)

pub expire_due_runs-WellFormed :
    (lib : TextLibrary) (settings : Settings) (actor_id : String) (now : Option ℕ)
    → Keeps WellFormed (expire_due_runs lib settings actor_id now)
unfolding expire_due_runs
expire_due_runs-WellFormed lib settings actor_id now =
    search (steps, expire_runs-WellFormed) depth 14
