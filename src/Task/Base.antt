-- ===== src/Task/Base.antt =====
-- The shared steps of task_services.py: rows by identifier, the lease's attributes, audit events.
use hermes_orchestrator.Prelude.{ℕ, Bool, String, none, leb, none_or}
use hermes_orchestrator.Models.Json.{Fields}
use hermes_orchestrator.Models.Rows.{Task, Run}
use hermes_orchestrator.Store.Table
use hermes_orchestrator.Store.Exec.{
  Exec, Exception, Code, gets, or_raise, add_audit, Task-Keyed, Run-Keyed, ◌>>=◌,
}

-- `LifecycleError(code, detail, 404)` and the like
abbrev pub lifecycle_error : Code → ℕ → Exception
lifecycle_error c status = Exception.lifecycle c status none

unfoldable pub append_audit : String → String → String → ℕ → Fields → Exec Unit
append_audit actor_id event_type aggregate_type aggregate_id payload = add_audit (record {
  actor_id = actor_id;
  event_type = event_type;
  aggregate_type = aggregate_type;
  aggregate_id = aggregate_id;
  payload = payload;
})

unfoldable pub get_task : ℕ → Exec Task
get_task id = do
  row ← gets (λ d. Table.get id d.tasks)
  or_raise row (lifecycle_error Code.not_found 404)

-- `get_run` and `_locked_run`: a row lock orders the transactions, which run one after another here.
unfoldable pub get_run : ℕ → Exec Run
get_run id = do
  row ← gets (λ d. Table.get id d.runs)
  or_raise row (lifecycle_error Code.not_found 404)

-- `_clear_run_lease`
abbrev pub clear_run_lease : Run → Run
clear_run_lease r = record r {
  lease_owner = none;
  lease_acquired_at = none;
  lease_expires_at = none;
  heartbeat_at = none;
}

-- The lease is absent or has run out.
abbrev pub lease_is_free : ℕ → Run → Bool
lease_is_free now r = none_or (λ t. leb t now) r.lease_expires_at
