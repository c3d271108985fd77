-- ===== src/Task/Expiry.antt =====
-- `expire_due_runs` of task_services.py, the watchdog of the runs' timeouts.
pub mod Cleared
use hermes_orchestrator.Prelude.{
  ℕ, Bool, ◌&&◌, String, Option, some, List, [], ◌∷◌, map, leb, filter,
}
use hermes_orchestrator.Models.Json.{end}
use hermes_orchestrator.Models.Status.{RunStatus, TaskStatus, is_active}
use hermes_orchestrator.Models.Rows.{Run}
use hermes_orchestrator.Models.Settings.{Settings, TextLibrary}
use hermes_orchestrator.Store.Exec.{
  Db, Exec, pure, gets, effective_time, commit, save_task, save_run, ◌>>=◌, ◌>>◌,
}
use hermes_orchestrator.Usage.Circuit.{record_run_outcome}
use hermes_orchestrator.Usage.Ledger.{ingest_run_usage}
use hermes_orchestrator.Task.Base.{append_audit, get_task, clear_run_lease}

-- The run is active and its time is up.
abbrev pub is_due : ℕ → Run → Bool
is_due now r = is_active r.status && leb r.timeout_at now

unfoldable pub due_runs : ℕ → Db → List Run
due_runs now d = filter (is_due now) d.runs

unfoldable pub timed_out_run : ℕ → Run → Run
timed_out_run now r =
    clear_run_lease (record r {
      status = RunStatus.timed_out;
      error_code = some "timeout";
      finished_at = some now;
    })

-- The circuit and the ledger of a run that has timed out.
unfoldable pub account_expired : TextLibrary → Settings → String → ℕ → Run → Exec Unit
account_expired lib settings actor_id now r = do
  record_run_outcome r settings actor_id (some now)
  ingest_run_usage lib r settings actor_id
  pure tt

unfoldable pub expire_run : TextLibrary → Settings → String → ℕ → Run → Exec Unit
unfolding timed_out_run get_task append_audit account_expired
expire_run lib settings actor_id now r = do
  save_run (timed_out_run now r)
  task ← get_task r.task_id
  save_task (record task { status = TaskStatus.timed_out })
  append_audit actor_id "run.timed_out" "run" r.id end
  account_expired lib settings actor_id now (timed_out_run now r)

-- The loop over the runs.
unfoldable pub expire_runs : TextLibrary → Settings → String → ℕ → List Run → Exec Unit
expire_runs lib settings actor_id now [] = pure tt
expire_runs lib settings actor_id now (r ∷ rs) = do
  expire_run lib settings actor_id now r
  expire_runs lib settings actor_id now rs

-- The identifiers of the runs that were expired.
unfoldable pub expire_due_runs : TextLibrary → Settings → String → Option ℕ → Exec (List ℕ)
unfolding due_runs
expire_due_runs lib settings actor_id now = do
  effective_now ← effective_time now
  due ← gets (due_runs effective_now)
  expire_runs lib settings actor_id effective_now due
  commit
  pure (map (λ (r : Run). r.id) due)
