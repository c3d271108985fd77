-- ===== src/Task/Dispatch.antt =====
-- `dispatch_task` of task_services.py.
pub mod Admission
pub mod Refusal
use hermes_orchestrator.Prelude.{
  ℕ, zero, suc, ◌+◌, min, max, Bool, true, false, ◌||◌, ◌&&◌, not, String, Option, none, some, List,
  [], ◌∷◌, ◌++◌, str_eq, ltb, ◌==◌, find, count, if◌then◌else◌,
}
use hermes_orchestrator.Models.Json.{Fields, end, field, text, number, boolean, uuid}
use hermes_orchestrator.Models.Status.{
  RunStatus, TaskStatus, ApprovalStatus, is_active, task_status_eq,
}
use hermes_orchestrator.Models.Rows.{Task, Run, Approval}
use hermes_orchestrator.Models.Settings.{Settings, TextLibrary, seconds}
use hermes_orchestrator.Store.Exec.{
  Db, Session, Exec, Exception, Code, Result, ok, err, error, pure, raise, gets, modify, raise_if,
  when, effective_time, add_row, commit, save_task, ◌>>=◌, ◌>>◌,
}
use hermes_orchestrator.Usage.Limits.{ControlLimits}
use hermes_orchestrator.Usage.Controls.{enforce_dispatch_controls}
use hermes_orchestrator.Usage.Circuit.{opt_str_eq}
use hermes_orchestrator.Task.Base.{lifecycle_error, append_audit, get_task, get_run}
use hermes_orchestrator.Task.Create.{unmet_dependencies}

-- The body of a dispatch (`DispatchCommand` of schemas.py).
pub record DispatchCommand : Type 0 where
  pub worker_actor_id : String
  pub requested_profile_id : String
  pub timeout_seconds : ℕ
  pub requires_approval : Bool
  pub approval_action : String
  pub approval_ttl_seconds : ℕ

pub dispatch_fields : DispatchCommand → Fields
dispatch_fields p = field "worker_actor_id" (text p.worker_actor_id) (
    field "requested_profile_id" (text p.requested_profile_id) (
      field "timeout_seconds" (number p.timeout_seconds) (
        field "requires_approval" (boolean p.requires_approval) (
          field "approval_action" (text p.approval_action)
            (field "approval_ttl_seconds" (number p.approval_ttl_seconds) end)))))

abbrev pub admits_dispatch : TaskStatus → Bool
admits_dispatch s =
    task_status_eq s TaskStatus.pending
    || task_status_eq s TaskStatus.blocked
    || task_status_eq s TaskStatus.failed
    || task_status_eq s TaskStatus.timed_out

-- The active runs of a task.
abbrev pub active_runs_of : ℕ → Db → ℕ
active_runs_of task_id d = count (λ r. r.task_id == task_id && is_active r.status) d.runs

-- `max` of the attempt numbers, or 0
pub max_attempt : ℕ → List Run → ℕ
max_attempt task_id [] = 0
max_attempt task_id (r ∷ rs) =
    if r.task_id == task_id
    then max r.attempt_number (max_attempt task_id rs)
    else max_attempt task_id rs

-- `except ControlViolation as error: raise LifecycleError(...)`
pub as_lifecycle : {A : Type 0} → Result A → Result A
as_lifecycle (ok a) = ok a
as_lifecycle (err (Exception.control c status retry_after)) =
    err (Exception.lifecycle c status retry_after)
as_lifecycle (err e) = err e

unfoldable pub catch_control : {A : Type 0} → Exec A → Exec A
unfolding as_lifecycle
catch_control m s = let (r, s') = m s in (as_lifecycle r, s')

abbrev pub dispatch_timeout : Task → DispatchCommand → ℕ → ℕ
dispatch_timeout task p now = elim task.deadline_at [
  | none ↦ now + seconds p.timeout_seconds
  | some deadline ↦ min (now + seconds p.timeout_seconds) deadline
]

unfoldable pub new_run : Task → DispatchCommand → String → String → ℕ → ℕ → ℕ → ℕ → Run
new_run task p idempotency_key dispatch_hash id attempt now clock = record {
  id = id;
  task_id = task.id;
  operation_id = task.operation_id;
  attempt_number = attempt;
  worker_actor_id = p.worker_actor_id;
  requested_profile_id = p.requested_profile_id;
  effective_profile_id = none;
  dispatch_idempotency_key = idempotency_key;
  dispatch_hash = dispatch_hash;
  status = if p.requires_approval then RunStatus.awaiting_approval else RunStatus.dispatching;
  dispatch_attempts = 0;
  next_attempt_at = now;
  lease_owner = none;
  lease_acquired_at = none;
  lease_expires_at = none;
  heartbeat_at = none;
  timeout_at = dispatch_timeout task p now;
  started_at = none;
  finished_at = none;
  error_code = none;
  summary = none;
  worker_run_id = none;
  requested_runtime = end;
  observed_runtime = end;
  runtime_fallback = end;
  usage_snapshot = end;
  error_details = end;
  created_at = clock;
}

dispatch_approval : Task → DispatchCommand → String → ℕ → ℕ → ℕ → ℕ → Approval
dispatch_approval task p actor_id id run_id now clock = record {
  id = id;
  run_id = run_id;
  action = p.approval_action;
  context_snapshot = field "task_id" (uuid task.id) (
      field "worker_actor_id" (text p.worker_actor_id)
        (field "requested_profile_id" (text p.requested_profile_id) end));
  status = ApprovalStatus.pending;
  requested_by_actor_id = actor_id;
  expires_at = now + seconds p.approval_ttl_seconds;
  decided_by_actor_id = none;
  decision_reason = none;
  decision_idempotency_key = none;
  decided_at = none;
  created_at = clock;
}

unfoldable pub request_approval : Task → DispatchCommand → String → ℕ → ℕ → Exec Unit
unfolding dispatch_approval
request_approval task p actor_id run_id now = do
  clock ← effective_time none
  add_row λ id d. record d {
    approvals = d.approvals ++ dispatch_approval task p actor_id id run_id now clock ∷ [];
  }
  pure tt

-- `blocked` is stored before the refusal.
unfoldable pub block_if_unmet : Task → List ℕ → Exec Unit
block_if_unmet task [] = pure tt
block_if_unmet task (_ ∷ _) = do
  save_task (record task { status = TaskStatus.blocked })
  commit
  raise (error Code.dependency_unmet)

-- The new run, its approval if it needs one, and the task's status.
unfoldable pub insert_run :
    Task → DispatchCommand → String → String → String → ℕ → Exec (Run × Bool)
unfolding new_run request_approval append_audit get_run
insert_run task p actor_id idempotency_key dispatch_hash now = do
  clock ← effective_time none
  attempt ← gets (λ d. max_attempt task.id d.runs + 1)
  id ← add_row λ id d. record d {
    runs = d.runs ++ new_run task p idempotency_key dispatch_hash id attempt now clock ∷ [];
  }
  when p.requires_approval (request_approval task p actor_id id now)
  save_task (record task {
    status = if p.requires_approval then TaskStatus.awaiting_approval else TaskStatus.dispatched;
  })
  append_audit actor_id "task.dispatched" "run" id
      (field "task_id" (uuid task.id) (field "attempt" (number attempt) end))
  commit
  run ← get_run id
  pure (run, false)

-- The guards of a dispatch on the task itself, in order.
unfoldable pub check_task : Task → DispatchCommand → Exec Unit
unfolding block_if_unmet
check_task task p = do
  raise_if (not (admits_dispatch task.status)) (error Code.invalid_transition)
  raise_if (task.independent_review && opt_str_eq task.reviewer_actor_id (some p.worker_actor_id))
      (lifecycle_error Code.self_review_denied 403)
  unmet ← gets (λ d. unmet_dependencies d task)
  block_if_unmet task unmet
  active ← gets (active_runs_of task.id)
  raise_if (ltb 0 active) (error Code.run_already_active)

-- The controls, with their exception as the caller sees it.
unfoldable pub control_dispatch :
    Settings → Task → String → DispatchCommand → ℕ → Exec ControlLimits
unfolding catch_control
control_dispatch settings task actor_id p now = catch_control (
    enforce_dispatch_controls task p.worker_actor_id p.requested_profile_id actor_id settings
      (some now))

-- All guards, and then the new run.
unfoldable pub dispatch_new :
    Settings → ℕ → String → String → String → DispatchCommand → ℕ → Exec (Run × Bool)
unfolding get_task
dispatch_new settings task_id actor_id idempotency_key dispatch_hash p now = do
  task ← get_task task_id
  check_task task p
  control_dispatch settings task actor_id p now
  insert_run task p actor_id idempotency_key dispatch_hash now

unfoldable pub replay_run : ℕ → String → Run → Exec (Run × Bool)
unfolding get_run
replay_run task_id dispatch_hash existing = do
  raise_if (not (existing.task_id == task_id) || not (str_eq existing.dispatch_hash dispatch_hash))
      (error Code.idempotency_conflict)
  run ← get_run existing.id
  pure (run, true)

run_by_key : String → Db → Option Run
run_by_key key d = find (λ r. str_eq r.dispatch_idempotency_key key) d.runs

unfoldable pub replay_or_dispatch :
    Settings → ℕ → String → String → String → DispatchCommand → ℕ → Option Run → Exec (Run × Bool)
unfolding replay_run
replay_or_dispatch settings task_id actor_id key dispatch_hash p now none =
    dispatch_new settings task_id actor_id key dispatch_hash p now
replay_or_dispatch settings task_id actor_id key dispatch_hash p now (some existing) =
    replay_run task_id dispatch_hash existing

-- The run, and whether the call was a replay.
unfoldable pub dispatch_task :
    TextLibrary → Settings → ℕ → String → String → DispatchCommand → Option ℕ → Exec (Run × Bool)
unfolding replay_or_dispatch run_by_key
dispatch_task lib settings task_id actor_id key p now = do
  effective_now ← effective_time now
  existing ← gets (run_by_key key)
  replay_or_dispatch settings task_id actor_id key (lib.digest (dispatch_fields p)) p effective_now
      existing
