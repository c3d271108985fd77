-- ===== src/Usage/Tests.antt =====
-- The theorems on limits, circuits, the ledger and the controls at concrete states.
use mathlib.Core.List.{Permᴰ}
use hermes_orchestrator.Prelude.{
  ◌≤◌, ◌≡◌, ◌↔◌, refl, Bool, true, false, none, some, [], ◌∷◌, arith, All, filter, length,
}
use hermes_orchestrator.Models.Json.{end, get, as_natural}
use hermes_orchestrator.Models.Status.{RunStatus, TaskStatus, closed, opened, unknown, available}
use hermes_orchestrator.Models.Rows.{Task, Budget, CircuitBreaker, UsageLedger}
use hermes_orchestrator.Store.Table
use hermes_orchestrator.Store.Exec.{
  Session, Exception, Result, ok, Code, Run-Keyed, Task-Keyed, ◌>>=◌,
}
use hermes_orchestrator.Store.Keeps.{Keeps}
use hermes_orchestrator.Fixtures.{
  settings, library, task_in, run_in, budget_row, db_with, session_of, result_or, ended, ended_run,
}
use hermes_orchestrator.Usage.Limits.{
  ControlLimits, resolve_limits, budget_matches, settings_values, budget_values, task_values,
}
use hermes_orchestrator.Usage.Limits.Narrowing.{Respects, resolve_limits-Respects}
use hermes_orchestrator.Usage.Limits.Order.{resolve_limits-Perm}
use hermes_orchestrator.Usage.Circuit.Breaking.{
  after_failures, failures_open, uncoded_failures_never_open,
}
use hermes_orchestrator.Usage.Ledger.{ingest_run_usage, profile_of, largest}
use hermes_orchestrator.Usage.Ledger.Once.{OneEntry, ingest-OneEntry, ingest_again}
use hermes_orchestrator.Usage.Controls.{
  enforce_dispatch_controls, dispatch_denial, profile_denial, outage_denial, load_denial,
  projected_tokens, sum_tokens, deny, deny_if,
}
use hermes_orchestrator.Usage.Controls.Budgets.{Admits, raised, enforce-Admits, enforce_refusal}

abbrev limits : ControlLimits
limits = record {
  window_seconds = 3600;
  soft_token_limit = none;
  hard_token_limit = some 500000;
  max_concurrent_runs = 2;
  max_fan_out = 3;
  max_retries = 1;
  circuit_failure_threshold = 3;
  circuit_cooldown_seconds = 600;
}

abbrev circuit : CircuitBreaker
circuit = record {
  id = 40;
  worker_actor_id = "wanda";
  profile_id = "standard";
  state = closed;
  consecutive_failures = 0;
  last_error_code = none;
  opened_at = none;
  reset_eligible_at = none;
  reset_by_actor_id = none;
  reset_reason = none;
}

abbrev task : Task
task = task_in TaskStatus.pending

resolve_limits-Respects_example :
    let l = resolve_limits (budget_row ∷ []) task "wanda" "standard" settings in
    Respects l (settings_values settings)
    × All
        (λ (b : Budget). Respects l (budget_values b))
        (filter (budget_matches task "wanda" "standard" settings) (budget_row ∷ []))
    × Respects l (task_values task.budget)
resolve_limits-Respects_example =
    resolve_limits-Respects (budget_row ∷ []) task "wanda" "standard" settings

abbrev other_budget : Budget
other_budget = record budget_row {
  id = 31;
  scope_type = "global";
  scope_key = "*";
  hard_token_limit = some 200000;
}

resolve_limits-Perm_example :
    resolve_limits (budget_row ∷ other_budget ∷ []) task "wanda" "standard" settings
    ≡ resolve_limits (other_budget ∷ budget_row ∷ []) task "wanda" "standard" settings
resolve_limits-Perm_example =
    resolve_limits-Perm task "wanda" "standard" settings (budget_row ∷ other_budget ∷ [])
      (other_budget ∷ budget_row ∷ []) ∣ Permᴰ.swap refl refl ∣₁

failures_open_example :
    ((after_failures limits 200 (some "crash") 3 circuit).consecutive_failures ≡ 3)
    × (((after_failures limits 200 (some "crash") 3 circuit).state ≡ opened) ↔ (3 ≤ 3))
failures_open_example = failures_open limits 200 "crash" 3 circuit (λ e. cc) refl refl (omega arith)

abbrev seen : CircuitBreaker
seen = record circuit { consecutive_failures = 1; last_error_code = some "crash" }

uncoded_failures_never_open_example :
    ((after_failures limits 200 none 9 seen).state ≡ closed)
    × ((after_failures limits 200 none 9 seen).consecutive_failures ≡ 1)
uncoded_failures_never_open_example =
    uncoded_failures_never_open limits 200 "crash" 8 seen (omega arith) refl refl

ingest-OneEntry_example : Keeps (OneEntry 7) (ingest_run_usage library ended_run settings "wanda")
ingest-OneEntry_example = ingest-OneEntry library ended_run settings "wanda" 7

abbrev entry : UsageLedger
entry = record {
  id = 0;
  run_id = 0;
  payload_hash = "";
  operation_id = 0;
  task_id = 0;
  parent_run_id = none;
  project_id = "";
  category = "";
  requesting_agent_id = "";
  executing_agent_id = "";
  requested_profile = "";
  effective_profile = none;
  requested_model = none;
  requested_provider = none;
  requested_reasoning_effort = none;
  model = none;
  provider = none;
  reasoning_effort = none;
  runtime_fallback = end;
  input_tokens = none;
  output_tokens = none;
  reasoning_tokens = none;
  cache_read_tokens = none;
  cache_write_tokens = none;
  api_calls = none;
  estimated_cost = none;
  actual_cost = none;
  currency = none;
  cost_status = unknown;
  cost_source = none;
  quota_status = available;
  quota_reset_at = none;
  started_at = none;
  finished_at = none;
  duration_ms = none;
  outcome = RunStatus.failed;
  retry_number = 0;
  created_at = 0;
}

abbrev ingested : Result (UsageLedger × Bool) × Session
ingested = ingest_run_usage library ended_run settings "wanda" ended

ingest_again_example :
    ingest_run_usage library ended_run settings "watchdog" ingested.1
    ≡ (ok ((result_or ingested.0 (entry, false)).0, true), ingested.1)
unfolding ingest_run_usage ◌>>=◌ Table.get
ingest_again_example =
    ingest_again library ended_run settings "wanda" "watchdog" ended ingested.1
      (result_or ingested.0 (entry, false)).0 false refl

abbrev open_session : Session
open_session = session_of (db_with (task ∷ []) [] [])

abbrev enforced : Result ControlLimits × Session
enforced = enforce_dispatch_controls task "wanda" "standard" "ana" settings none open_session

enforce-Admits_example :
    (result_or enforced.0 limits
      ≡ resolve_limits open_session.current.budgets task "wanda" "standard" settings)
    × Admits open_session.current task settings (result_or enforced.0 limits) 200
    × (enforced.1.current
        ≡ record open_session.current { audit_events = enforced.1.current.audit_events })
    × (enforced.1.committed ≡ open_session.committed)
unfolding enforce_dispatch_controls ◌>>=◌ Table.get dispatch_denial profile_denial outage_denial
    load_denial projected_tokens sum_tokens resolve_limits profile_of largest as_natural get
enforce-Admits_example =
    enforce-Admits task "wanda" "standard" "ana" settings none open_session enforced.1
      (result_or enforced.0 limits) refl

-- Two active runs of the account, which is as many as the worker's budget allows.
abbrev busy : Session
busy = session_of (
    db_with (task ∷ [])
      (record (run_in RunStatus.running) { task_id = 2 }
        ∷ record (run_in RunStatus.running) { id = 8; task_id = 3 }
        ∷ [])
      [])

abbrev refused : Result ControlLimits × Session
refused = enforce_dispatch_controls task "wanda" "standard" "ana" settings none busy

enforce_refusal_example :
    (refused.1.committed ≡ refused.1.current)
    × (refused.1.current ≡ record busy.current { audit_events = refused.1.current.audit_events })
    × (length refused.1.current.audit_events ≡ 1)
    × (some (Exception.control Code.concurrency_limit_exceeded 409 none)
        ≡ raised (
            dispatch_denial busy.current task "wanda" "standard" settings
              (resolve_limits busy.current.budgets task "wanda" "standard" settings)
              200))
unfolding enforce_dispatch_controls ◌>>=◌ Table.get dispatch_denial profile_denial outage_denial
    load_denial projected_tokens sum_tokens resolve_limits profile_of largest as_natural get deny
    deny_if
enforce_refusal_example =
    enforce_refusal task "wanda" "standard" "ana" settings none busy refused.1
      (Exception.control Code.concurrency_limit_exceeded 409 none) refl
