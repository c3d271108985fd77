-- ===== src/Task/Transition.antt =====
-- `transition_run` of task_services.py.
pub mod Effects
pub mod Moves
pub mod Writes
use hermes_orchestrator.Prelude.{
  ℕ, Bool, true, false, ◌&&◌, ◌||◌, not, String, Option, none, some, List, [], ◌∷◌, str_eq, ◌==◌,
  any, first_some, some_and, or_else, is_some, if◌then◌else◌,
}
use hermes_orchestrator.Models.Json.{
  Fields, Json, end, field, get, text, uuid, as_object, as_text, opt_text,
}
use hermes_orchestrator.Models.Status.{
  RunStatus, TaskStatus, ApprovalStatus, run_status_text, run_status_eq, run_status_in,
  run_transitions, approval_status_eq, is_terminal,
}
use hermes_orchestrator.Models.Rows.{Task, Run, Approval, AuditEvent}
use hermes_orchestrator.Models.Settings.{Settings, TextLibrary}
use hermes_orchestrator.Store.Exec.{
  Db, Exec, Code, error, pure, gets, raise_if, when, effective_time, commit, save_task, save_run,
  add_audit, ◌>>=◌, ◌>>◌,
}
use hermes_orchestrator.Usage.Circuit.{record_run_outcome}
use hermes_orchestrator.Usage.Ledger.{ingest_run_usage}
use hermes_orchestrator.Task.Base.{get_task, get_run, clear_run_lease}

-- f"run.{new_status}"
abbrev pub run_event : RunStatus → String
run_event RunStatus.dispatching = "run.dispatching"
run_event RunStatus.running = "run.running"
run_event RunStatus.awaiting_approval = "run.awaiting_approval"
run_event RunStatus.completed = "run.completed"
run_event RunStatus.failed = "run.failed"
run_event RunStatus.cancelled = "run.cancelled"
run_event RunStatus.timed_out = "run.timed_out"

-- The task's status for a run's status, where no handoff decides it.
abbrev pub task_status_of : RunStatus → TaskStatus
task_status_of RunStatus.dispatching = TaskStatus.dispatched
task_status_of RunStatus.running = TaskStatus.in_progress
task_status_of RunStatus.awaiting_approval = TaskStatus.awaiting_approval
task_status_of RunStatus.completed = TaskStatus.completed
task_status_of RunStatus.failed = TaskStatus.failed
task_status_of RunStatus.cancelled = TaskStatus.cancelled
task_status_of RunStatus.timed_out = TaskStatus.timed_out

-- `run.error_details.get("agent_handoff")`, where it is a dictionary
abbrev pub handoff_of : Run → Option Fields
handoff_of r = as_object (get "agent_handoff" r.error_details)

abbrev pub is_blocked_handoff : Fields → Bool
is_blocked_handoff h = some_and (λ s. str_eq s "blocked") (as_text (get "outcome" h))

-- A completion approval of the run is still to be decided.
unfoldable pub completion_pending : Db → ℕ → Bool
completion_pending d run_id =
    any
      (λ a.
        a.run_id == run_id
        && str_eq a.action "completion"
        && approval_status_eq a.status ApprovalStatus.pending)
      d.approvals

-- The task's status after a run has finished with a handoff.
pub handoff_status : Fields → Bool → TaskStatus
handoff_status h is_pending =
    if is_blocked_handoff h
    then TaskStatus.blocked
    else if is_pending
    then TaskStatus.awaiting_approval
    else TaskStatus.completed

unfoldable pub next_task_status : RunStatus → Option Fields → Bool → TaskStatus
unfolding handoff_status
next_task_status RunStatus.completed (some h) is_pending = handoff_status h is_pending
next_task_status new_status _ _ = task_status_of new_status

-- `started_at` is set once, `finished_at` and the free lease come with a terminal status.
unfoldable pub moved_run : RunStatus → Option String → Option String → ℕ → Run → Run
moved_run new_status error_code summary now r =
    let r' = record r { status = new_status; error_code = error_code; summary = summary } in
    let started = record r' {
      started_at =
          if run_status_eq new_status RunStatus.running
          then some (or_else r.started_at now)
          else r.started_at;
    } in
    if is_terminal new_status
    then clear_run_lease (record started { finished_at = some now })
    else started

-- `record_run_outcome` and `ingest_run_usage` for a run that has ended.
unfoldable pub account_outcome : TextLibrary → Settings → String → Run → ℕ → Exec Unit
account_outcome lib settings actor_id run now = do
  when
      (run_status_eq run.status RunStatus.completed
        || run_status_eq run.status RunStatus.failed
        || run_status_eq run.status RunStatus.timed_out)
      (record_run_outcome run settings actor_id (some now) >> pure tt)
  when (is_terminal run.status) (ingest_run_usage lib run settings actor_id >> pure tt)

-- The task follows its run.
unfoldable pub follow_run : RunStatus → Run → Exec Task
unfolding get_task
follow_run new_status run = do
  task ← get_task run.task_id
  is_pending ← gets (λ d. completion_pending d run.id)
  save_task (record task { status = next_task_status new_status (handoff_of run) is_pending })
  pure task

-- The end of a transition; the run is read again.
pub finish_move : TextLibrary → Settings → String → Run → ℕ → ℕ → Exec Run
finish_move lib settings actor_id moved run_id now = do
  account_outcome lib settings actor_id moved now
  commit
  get_run run_id

abbrev pub move_event : RunStatus → String → Option String → ℕ → ℕ → AuditEvent
move_event new_status actor_id error_code run_id task_id = record {
  actor_id = actor_id;
  event_type = run_event new_status;
  aggregate_type = "run";
  aggregate_id = run_id;
  payload = field "task_id" (uuid task_id) (field "error_code" (opt_text error_code) end);
}

-- The writes of a transition: the run, its task, the audit event and the accounts.
unfoldable pub store_move :
    TextLibrary → Settings → RunStatus → String → Option String → Run → ℕ → ℕ → Exec Run
unfolding get_run follow_run account_outcome finish_move
store_move lib settings new_status actor_id error_code moved run_id now = do
  save_run moved
  task ← follow_run new_status moved
  add_audit (move_event new_status actor_id error_code run_id task.id)
  finish_move lib settings actor_id moved run_id now

unfoldable pub transition_run :
    TextLibrary
    → Settings
    → ℕ
    → RunStatus
    → String
    → Option String
    → Option String
    → Option ℕ
    → Exec Run
unfolding get_run store_move
transition_run lib settings run_id new_status actor_id error_code summary now = do
  effective_now ← effective_time now
  run ← get_run run_id
  raise_if (not (run_status_in new_status (run_transitions run.status)))
      (error Code.invalid_transition)
  store_move lib settings new_status actor_id error_code
      (moved_run new_status error_code summary effective_now run) run.id effective_now
