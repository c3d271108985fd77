-- ===== src/Usage/Circuit.antt =====
-- `record_run_outcome` and `reset_circuit` of usage_services.py.
pub mod Breaking
use hermes_orchestrator.Prelude.{
  ℕ, suc, ◌+◌, Bool, true, false, ◌&&◌, String, Option, none, some, List, [], ◌∷◌, ◌++◌, str_eq,
  leb, find, text_or, if◌then◌else◌,
}
use hermes_orchestrator.Models.Json.{Fields, end, field, number, text, opt_text}
use hermes_orchestrator.Models.Status.{RunStatus, CircuitState, closed, opened, run_status_text}
use hermes_orchestrator.Models.Rows.{Task, Run, CircuitBreaker, AuditEvent}
use hermes_orchestrator.Models.Settings.{Settings, seconds}
use hermes_orchestrator.Store.Table
use hermes_orchestrator.Store.Exec.{
  Db, Exec, Exception, Code, pure, gets, modify, or_raise, effective_time, uuid4, raise, commit,
  when, save_circuit, add_audit, Task-Keyed, CircuitBreaker-Keyed, ◌>>=◌, ◌>>◌,
}
use hermes_orchestrator.Usage.Limits.{ControlLimits, resolve_limits}

abbrev pub opt_str_eq : Option String → Option String → Bool
opt_str_eq none none = true
opt_str_eq (some s) (some t) = str_eq s t
opt_str_eq _ _ = false

-- `run.effective_profile_id or run.requested_profile_id`
abbrev pub run_profile : Run → String
run_profile r = text_or r.effective_profile_id r.requested_profile_id

abbrev pub is_circuit_of : String → String → CircuitBreaker → Bool
is_circuit_of worker profile c = str_eq c.worker_actor_id worker && str_eq c.profile_id profile

-- The attributes that a closed circuit has.
pub close_circuit : CircuitBreaker → CircuitBreaker
close_circuit c = record c {
  state = closed;
  consecutive_failures = 0;
  last_error_code = none;
  opened_at = none;
  reset_eligible_at = none;
}

-- The count of failures in a row with one error code.
pub count_failure : RunStatus → Option String → CircuitBreaker → CircuitBreaker
count_failure status error_code c =
    if opt_str_eq c.last_error_code error_code
    then record c { consecutive_failures = c.consecutive_failures + 1 }
    else record c {
      consecutive_failures = 1;
      last_error_code = some (text_or error_code (run_status_text status));
    }

abbrev pub trips : ControlLimits → CircuitBreaker → Bool
trips limits c = leb limits.circuit_failure_threshold c.consecutive_failures

pub open_circuit : ControlLimits → ℕ → CircuitBreaker → CircuitBreaker
open_circuit limits now c = record c {
  state = opened;
  opened_at = some now;
  reset_eligible_at = some (now + seconds limits.circuit_cooldown_seconds);
}

-- A failed or timed out run: counted, and the circuit opened at the threshold.
pub failed_circuit : ControlLimits → ℕ → RunStatus → Option String → CircuitBreaker → CircuitBreaker
unfolding count_failure open_circuit
failed_circuit limits now status error_code c =
    let c' = count_failure status error_code c in
    if trips limits c' then open_circuit limits now c' else c'

-- The circuit after a run with that status and error code.
unfoldable pub next_circuit :
    ControlLimits → ℕ → RunStatus → Option String → CircuitBreaker → CircuitBreaker
unfolding close_circuit failed_circuit
next_circuit limits now RunStatus.completed error_code c = close_circuit c
next_circuit limits now RunStatus.failed error_code c =
    failed_circuit limits now RunStatus.failed error_code c
next_circuit limits now RunStatus.timed_out error_code c =
    failed_circuit limits now RunStatus.timed_out error_code c
next_circuit limits now _ error_code c = c

-- The run opens its circuit (again), which is what the audit event records.
unfoldable pub opens : ControlLimits → RunStatus → Option String → CircuitBreaker → Bool
unfolding count_failure
opens limits RunStatus.failed error_code c =
    trips limits (count_failure RunStatus.failed error_code c)
opens limits RunStatus.timed_out error_code c =
    trips limits (count_failure RunStatus.timed_out error_code c)
opens limits _ error_code c = false

new_circuit : ℕ → String → String → CircuitBreaker
new_circuit id worker profile = record {
  id = id;
  worker_actor_id = worker;
  profile_id = profile;
  state = closed;
  consecutive_failures = 0;
  last_error_code = none;
  opened_at = none;
  reset_eligible_at = none;
  reset_by_actor_id = none;
  reset_reason = none;
}

add_circuit : String → String → Exec CircuitBreaker
unfolding new_circuit
add_circuit worker profile = do
  id ← uuid4
  modify
      λ d. record d { circuit_breakers = d.circuit_breakers ++ new_circuit id worker profile ∷ [] }
  pure (new_circuit id worker profile)

-- The circuit of a worker and a profile, made if there is none.
circuit_for : String → String → Option CircuitBreaker → Exec CircuitBreaker
unfolding add_circuit
circuit_for worker profile none = add_circuit worker profile
circuit_for worker profile (some c) = pure c

opened_event : String → Run → String → CircuitBreaker → AuditEvent
opened_event actor_id run profile c = record {
  actor_id = actor_id;
  event_type = "circuit.opened";
  aggregate_type = "circuit_breaker";
  aggregate_id = c.id;
  payload = field "worker_actor_id" (text run.worker_actor_id) (
      field "profile_id" (text profile) (
        field "error_code" (opt_text c.last_error_code)
          (field "consecutive_failures" (number c.consecutive_failures) end)));
}

unfoldable pub record_run_outcome : Run → Settings → String → Option ℕ → Exec CircuitBreaker
unfolding circuit_for opened_event
record_run_outcome run settings actor_id now = do
  effective_now ← effective_time now
  let profile = run_profile run
  found ← gets (λ d. find (is_circuit_of run.worker_actor_id profile) d.circuit_breakers)
  circuit ← circuit_for run.worker_actor_id profile found
  task_row ← gets (λ d. Table.get run.task_id d.tasks)
  task ← or_raise task_row (Exception.control Code.not_found 404 none)
  limits ← gets (λ d. resolve_limits d.budgets task run.worker_actor_id profile settings)
  let next = next_circuit limits effective_now run.status run.error_code circuit
  save_circuit next
  when (opens limits run.status run.error_code circuit)
      (add_audit (opened_event actor_id run profile next))
  pure next

pub reset_circuit : ℕ → String → String → Exec CircuitBreaker
reset_circuit circuit_id actor_id reason = do
  found ← gets (λ d. Table.get circuit_id d.circuit_breakers)
  circuit ← or_raise found (Exception.control Code.not_found 404 none)
  let closed_again = record (close_circuit circuit) {
    reset_by_actor_id = some actor_id;
    reset_reason = some reason;
  }
  save_circuit closed_again
  add_audit (record {
    actor_id = actor_id;
    event_type = "circuit.reset";
    aggregate_type = "circuit_breaker";
    aggregate_id = circuit.id;
    payload = field "reason" (text reason) end;
  })
  commit
  pure closed_again
