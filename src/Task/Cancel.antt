-- ===== src/Task/Cancel.antt =====
-- `cancel_task` of task_services.py, with `_reject_pending_approvals_for_cancelled_task`.
pub mod Cleared
use hermes_orchestrator.Prelude.{
  ℕ, suc, ◌+◌, Bool, true, false, ◌&&◌, not, String, Option, none, some, List, [], ◌∷◌, str_append,
  any, ltb, ◌==◌, filter, length, is_some, some_and, if◌then◌else◌,
}
use hermes_orchestrator.Models.Json.{Fields, end, field, text, uuid}
use hermes_orchestrator.Models.Status.{
  RunStatus, TaskStatus, ApprovalStatus, approval_status_eq, task_status_eq, is_active,
}
use hermes_orchestrator.Models.Rows.{Task, Run, Approval}
use hermes_orchestrator.Models.Settings.{Settings, TextLibrary}
use hermes_orchestrator.Store.Table
use hermes_orchestrator.Store.Exec.{
  Db, Exec, Exception, Code, error, pure, gets, raise_if, when, effective_time, commit, save_task,
  save_run, save_approval, Run-Keyed, ◌>>=◌, ◌>>◌,
}
use hermes_orchestrator.Usage.Circuit.{opt_str_eq}
use hermes_orchestrator.Usage.Ledger.{ingest_run_usage, largest}
use hermes_orchestrator.Task.Base.{append_audit, get_task, clear_run_lease}

abbrev pub run_is_of : List Run → ℕ → ℕ → Bool
run_is_of runs task_id run_id = some_and (λ r. r.task_id == task_id) (Table.get run_id runs)

-- The `where` of the statement (`join` on the run).
abbrev pub is_pending_of : List Run → ℕ → Approval → Bool
is_pending_of runs task_id a =
    approval_status_eq a.status ApprovalStatus.pending && run_is_of runs task_id a.run_id

-- The pending approvals of the task's runs.
unfoldable pub pending_approvals : Db → ℕ → List Approval
pending_approvals d task_id = filter (is_pending_of d.runs task_id) d.approvals

-- `"cancel:" + stable_hash(...)`
cancel_key : TextLibrary → ℕ → String → ℕ → String
cancel_key lib approval_id idempotency_key task_id = str_append "cancel:" (
    lib.digest (
      field "approval_id" (uuid approval_id)
        (field "idempotency_key" (text idempotency_key) (field "task_id" (uuid task_id) end))))

unfoldable pub rejected_by_cancel :
    TextLibrary → ℕ → String → String → String → ℕ → Approval → Approval
unfolding cancel_key
rejected_by_cancel lib task_id actor_id key reason now a = record a {
  status = ApprovalStatus.rejected;
  decided_by_actor_id = some actor_id;
  decision_reason = some (str_append "Tarea cancelada: " reason);
  decision_idempotency_key = some (cancel_key lib a.id key task_id);
  decided_at = some now;
}

unfoldable pub reject_approval :
    TextLibrary → ℕ → String → String → String → ℕ → Approval → Exec Unit
unfolding rejected_by_cancel append_audit
reject_approval lib task_id actor_id key reason now a = do
  save_approval (rejected_by_cancel lib task_id actor_id key reason now a)
  append_audit actor_id "approval.rejected" "approval" a.id (
      field "reason" (text "task_cancelled")
        (field "run_id" (uuid a.run_id) (field "task_id" (uuid task_id) end)))

-- The loop over the approvals.
unfoldable pub reject_each :
    TextLibrary → ℕ → String → String → String → ℕ → List Approval → Exec Unit
reject_each lib task_id actor_id key reason now [] = pure tt
reject_each lib task_id actor_id key reason now (a ∷ rest) = do
  reject_approval lib task_id actor_id key reason now a
  reject_each lib task_id actor_id key reason now rest

-- The number of approvals that were rejected.
unfoldable pub reject_pending : TextLibrary → ℕ → String → String → String → ℕ → Exec ℕ
unfolding pending_approvals reject_each
reject_pending lib task_id actor_id key reason now = do
  rows ← gets (λ d. pending_approvals d task_id)
  reject_each lib task_id actor_id key reason now rows
  pure (length rows)

-- The active run of the task with the highest attempt.
unfoldable pub active_run_of : Db → ℕ → Option Run
active_run_of d task_id =
    largest (λ (r : Run). r.attempt_number)
      (filter (λ r. r.task_id == task_id && is_active r.status) d.runs)

unfoldable pub cancelled_run : String → ℕ → Run → Run
cancelled_run reason now r = clear_run_lease (record r {
  status = RunStatus.cancelled;
  error_code = some "cancelled";
  summary = some reason;
  finished_at = some now;
})

unfoldable pub cancel_run : TextLibrary → Settings → String → String → ℕ → Option Run → Exec Unit
unfolding cancelled_run
cancel_run lib settings actor_id reason now none = pure tt
cancel_run lib settings actor_id reason now (some r) = do
  save_run (cancelled_run reason now r)
  ingest_run_usage lib (cancelled_run reason now r) settings actor_id
  pure tt

-- A task that is cancelled already: only approvals that appeared since are rejected.
unfoldable pub cancel_again : TextLibrary → Task → String → String → String → ℕ → Exec (Task × Bool)
cancel_again lib task actor_id key reason now = do
  raise_if (not (opt_str_eq task.cancel_idempotency_key (some key))) (error Code.already_cancelled)
  reconciled ← reject_pending lib task.id actor_id key reason now
  when (ltb 0 reconciled) commit
  pure (task, true)

-- The key has cancelled another task, which the unique index refuses.
cancel_key_taken : Db → ℕ → String → Bool
cancel_key_taken d id key =
    any (λ t. not (t.id == id) && opt_str_eq t.cancel_idempotency_key (some key)) d.tasks

-- The cancelled task and its active run.
unfoldable pub close_task : TextLibrary → Settings → Task → String → String → String → ℕ → Exec Unit
unfolding cancel_key_taken active_run_of
close_task lib settings task actor_id key reason now = do
  raise_if (task_status_eq task.status TaskStatus.completed) (error Code.invalid_transition)
  save_task (record task { cancel_idempotency_key = some key; status = TaskStatus.cancelled })
  taken ← gets (λ d. cancel_key_taken d task.id key)
  raise_if taken Exception.integrity
  active ← gets (λ d. active_run_of d task.id)
  cancel_run lib settings actor_id reason now active

-- The audit event and the commit; the task is read again.
unfoldable pub finish_cancel : Task → String → String → Exec (Task × Bool)
unfolding append_audit get_task
finish_cancel task actor_id reason = do
  append_audit actor_id "task.cancelled" "task" task.id (field "reason" (text reason) end)
  commit
  row ← get_task task.id
  pure (row, false)

unfoldable pub cancel_new :
    TextLibrary → Settings → Task → String → String → String → ℕ → Exec (Task × Bool)
unfolding close_task finish_cancel
cancel_new lib settings task actor_id key reason now = do
  close_task lib settings task actor_id key reason now
  reject_pending lib task.id actor_id key reason now
  finish_cancel task actor_id reason

-- The task, and whether the call was a replay.
unfoldable pub cancel_task :
    TextLibrary → Settings → ℕ → String → String → String → Option ℕ → Exec (Task × Bool)
unfolding get_task cancel_again cancel_new
cancel_task lib settings task_id actor_id key reason now = do
  effective_now ← effective_time now
  task ← get_task task_id
  if is_some task.cancel_idempotency_key
      then cancel_again lib task actor_id key reason effective_now
      else cancel_new lib settings task actor_id key reason effective_now
