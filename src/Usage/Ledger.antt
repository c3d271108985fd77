-- ===== src/Usage/Ledger.antt =====
-- `ingest_run_usage` of usage_services.py, with `_decimal`, `_quota_reset` and `_parent_run_id`.
pub mod Once
use hermes_orchestrator.Prelude.{
  ℕ, zero, suc, ◌+◌, ◌-◌, ◌/◌, Bool, true, false, ◌&&◌, ◌||◌, String, Option, none, some, List, [],
  ◌∷◌, ◌++◌, str_eq, leb, ltb, ◌==◌, not, find, filter, or_else, text_or, some_and, is_some,
  if◌then◌else◌,
}
use hermes_orchestrator.Models.Json.{
  ℤ, pos, negsuc, Json, null, boolean, integer, decimal, text, uuid, array, object, Fields, end,
  field, get, as_natural, nonempty_text, opt_text,
}
use hermes_orchestrator.Models.Status.{
  RunStatus, CostStatus, QuotaStatus, available, exhausted, known, estimated, unknown,
  run_status_text, cost_status_text, quota_status_text,
}
use hermes_orchestrator.Models.Rows.{Task, Run, ExecutionProfile, UsageLedger, AuditEvent}
use hermes_orchestrator.Models.Settings.{Settings, TextLibrary, seconds}
use hermes_orchestrator.Store.Table
use hermes_orchestrator.Store.Exec.{
  Db, Exec, Exception, Code, pure, gets, modify, or_raise, raise, raise_if, effective_time, uuid4,
  add_audit, Task-Keyed, ◌>>=◌, ◌>>◌,
}
use hermes_orchestrator.Usage.Circuit.{run_profile}

-- `_decimal`, in millionths
unfoldable pub as_cost : TextLibrary → Option Json → Option ℕ
as_cost lib (some (integer (pos n))) = some (seconds n)
as_cost lib (some (decimal s)) = lib.decimal s
as_cost lib (some (text s)) = if str_eq s "unknown" then none else lib.decimal s
as_cost lib _ = none

-- The text of a quota's reset time, if it is one.
reset_time : TextLibrary → Option Json → Option ℕ
reset_time lib (some (text s)) = lib.from_iso s
reset_time lib _ = none

-- `_quota_reset`
unfoldable pub quota_reset : TextLibrary → Fields → ℕ → Option ℕ
unfolding reset_time
quota_reset lib details now = elim (reset_time lib (get "quota_reset_at" details)) [
  | some t ↦ some t
  | none ↦ elim (as_natural (get "retry_after" details)) [
    | none ↦ none
    | some retry_after ↦ some (now + seconds retry_after)
  ]
]

-- The first item with the largest measure.
unfoldable pub largest : {A : Type 0} → (A → ℕ) → List A → Option A
largest f [] = none
largest f (x ∷ xs) = elim (largest f xs) [
  | none ↦ some x
  | some y ↦ if ltb (f x) (f y) then some y else some x
]

-- `_parent_run_id`: the latest attempt of the parent task.
parent_run_id : Db → Task → Option ℕ
unfolding largest
parent_run_id d task = elim task.parent_task_id [
  | none ↦ none
  | some parent ↦
      elim (largest (λ (r : Run). r.attempt_number) (filter (λ r. r.task_id == parent) d.runs)) [
        | none ↦ none
        | some r ↦ some r.id
      ]
]

-- `session.get(ExecutionProfile, id)`
unfoldable pub profile_of : Db → String → Option ExecutionProfile
profile_of d id = find (λ p. str_eq p.id id) d.execution_profiles

-- A runtime's entry, or else the profile's.
runtime_or_profile :
    String → (ExecutionProfile → String) → Fields → Option ExecutionProfile → Option String
runtime_or_profile name attribute runtime profile = elim (nonempty_text (get name runtime)) [
  | some s ↦ some s
  | none ↦ elim profile [ none ↦ none | some p ↦ nonempty_text (some (text (attribute p))) ]
]

-- The observed runtime's entry, or else the profile's, which may be empty.
observed_or_profile :
    String → (ExecutionProfile → String) → Fields → Option ExecutionProfile → Option String
observed_or_profile name attribute runtime profile = elim (nonempty_text (get name runtime)) [
  | some s ↦ some s
  | none ↦ elim profile [ none ↦ none | some p ↦ some (attribute p) ]
]

is_quota_code : Option String → Bool
is_quota_code = some_and λ c. str_eq c "quota_exhausted" || str_eq c "rate_limited"

-- The estimate counts as one only if it is not zero.
cost_status_of : Option ℕ → Option ℕ → CostStatus
cost_status_of (some _) _ = known
cost_status_of none (some (suc _)) = estimated
cost_status_of none _ = unknown

-- `payload` of `ingest_run_usage`, whose digest identifies the entry.
pub usage_payload : Run → Fields
usage_payload run = field "run_id" (uuid run.id) (
    field "usage" (object run.usage_snapshot) (
      field "error_code" (opt_text run.error_code) (
        field "error_details" (object run.error_details) (
          field "status" (text (run_status_text run.status)) (
            field "effective_profile" (text (run_profile run)) (
              field "requested_runtime" (object run.requested_runtime) (
                field "observed_runtime" (object run.observed_runtime)
                  (field "runtime_fallback" (object run.runtime_fallback) end))))))))

duration_of : Option ℕ → ℕ → Option ℕ
duration_of none started = none
duration_of (some finished) started = some ((finished - started) / 1000)

module _ (lib : TextLibrary) where
  -- The new entry, under its key, at the time of the clock.
  pub ledger_entry : Db → Settings → Task → Run → ℕ → ℕ → UsageLedger
  unfolding duration_of runtime_or_profile observed_or_profile is_quota_code cost_status_of
      parent_run_id
  ledger_entry d settings task run id now = record {
    id = id;
    run_id = run.id;
    payload_hash = lib.digest (usage_payload run);
    operation_id = run.operation_id;
    task_id = task.id;
    parent_run_id = parent_run_id d task;
    project_id = settings.usage_project_id;
    category = text_or task.workflow_ref "uncategorized";
    requesting_agent_id = task.requester_actor_id;
    executing_agent_id = run.worker_actor_id;
    requested_profile = run.requested_profile_id;
    effective_profile = run.effective_profile_id;
    requested_model =
        runtime_or_profile "model" (λ p. p.model) run.requested_runtime
          (profile_of d run.requested_profile_id);
    requested_provider =
        runtime_or_profile "provider" (λ p. p.provider) run.requested_runtime
          (profile_of d run.requested_profile_id);
    requested_reasoning_effort =
        runtime_or_profile "reasoning_effort" (λ p. p.reasoning_effort) run.requested_runtime
          (profile_of d run.requested_profile_id);
    model =
        observed_or_profile "model" (λ p. p.model) run.observed_runtime
          (profile_of d (run_profile run));
    provider =
        observed_or_profile "provider" (λ p. p.provider) run.observed_runtime
          (profile_of d (run_profile run));
    reasoning_effort =
        observed_or_profile "reasoning_effort" (λ p. p.reasoning_effort) run.observed_runtime
          (profile_of d (run_profile run));
    runtime_fallback = run.runtime_fallback;
    input_tokens = as_natural (get "input_tokens" run.usage_snapshot);
    output_tokens = as_natural (get "output_tokens" run.usage_snapshot);
    reasoning_tokens = as_natural (get "reasoning_tokens" run.usage_snapshot);
    cache_read_tokens = as_natural (get "cache_read_tokens" run.usage_snapshot);
    cache_write_tokens = as_natural (get "cache_write_tokens" run.usage_snapshot);
    api_calls = as_natural (get "api_calls" run.usage_snapshot);
    estimated_cost = as_cost lib (get "estimated_cost" run.usage_snapshot);
    actual_cost = as_cost lib (get "actual_cost" run.usage_snapshot);
    currency = nonempty_text (get "currency" run.usage_snapshot);
    cost_status =
        cost_status_of (as_cost lib (get "actual_cost" run.usage_snapshot))
          (as_cost lib (get "estimated_cost" run.usage_snapshot));
    cost_source = nonempty_text (get "cost_source" run.usage_snapshot);
    quota_status = if is_quota_code run.error_code then exhausted else available;
    quota_reset_at =
        if is_quota_code run.error_code
        then quota_reset lib run.error_details (or_else run.finished_at now)
        else none;
    started_at = run.started_at;
    finished_at = run.finished_at;
    duration_ms = duration_of run.finished_at (or_else run.started_at run.created_at);
    outcome = run.status;
    retry_number = run.attempt_number - 1;
    created_at = now;
  }

  ingested_event : String → Run → UsageLedger → AuditEvent
  ingested_event actor_id run entry = record {
    actor_id = actor_id;
    event_type = "usage.ingested";
    aggregate_type = "usage_ledger";
    aggregate_id = entry.id;
    payload = field "run_id" (uuid run.id) (
        field "operation_id" (uuid run.operation_id) (
          field "cost_status" (text (cost_status_text entry.cost_status))
            (field "quota_status" (text (quota_status_text entry.quota_status)) end)));
  }

  add_entry : Settings → String → Task → Run → Exec (UsageLedger × Bool)
  unfolding ingested_event
  add_entry settings actor_id task run = do
    now ← effective_time none
    id ← uuid4
    entry ← gets (λ d. ledger_entry d settings task run id now)
    modify λ d. record d { usage_ledger = d.usage_ledger ++ entry ∷ [] }
    add_audit (ingested_event actor_id run entry)
    pure (entry, false)

  -- An entry that stands already: the same, or a conflict.
  same_entry : String → UsageLedger → Exec (UsageLedger × Bool)
  same_entry payload_hash existing = do
    raise_if (not (str_eq existing.payload_hash payload_hash))
        (Exception.control Code.usage_ingest_conflict 409 none)
    pure (existing, true)

  entry_or_new : Settings → String → Task → Run → Option UsageLedger → Exec (UsageLedger × Bool)
  unfolding add_entry same_entry
  entry_or_new settings actor_id task run none = add_entry settings actor_id task run
  entry_or_new settings actor_id task run (some existing) =
      same_entry (lib.digest (usage_payload run)) existing

  -- The entry of a run, and whether it stood before.
  unfoldable pub ingest_run_usage : Run → Settings → String → Exec (UsageLedger × Bool)
  unfolding entry_or_new
  ingest_run_usage run settings actor_id = do
    task_row ← gets (λ d. Table.get run.task_id d.tasks)
    task ← or_raise task_row (Exception.control Code.not_found 404 none)
    existing ← gets (λ d. find (λ e. e.run_id == run.id) d.usage_ledger)
    entry_or_new settings actor_id task run existing
