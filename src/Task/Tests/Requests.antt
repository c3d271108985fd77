-- ===== src/Task/Tests/Requests.antt =====
-- The theorems on dispatches, approvals and the other requests at concrete states.
use hermes_orchestrator.Prelude.{◌≡◌, refl, Bool, true, false, none, some, [], ◌∷◌}
use hermes_orchestrator.Models.Json.{end, get, as_natural}
use hermes_orchestrator.Models.Status.{RunStatus, TaskStatus}
use hermes_orchestrator.Models.Rows.{Task, Run, Approval, TaskComment}
use hermes_orchestrator.Store.Table
use hermes_orchestrator.Store.Exec.{
  Session, Code, Result, ok, request, Run-Keyed, Task-Keyed, Approval-Keyed, ◌>>=◌,
}
use hermes_orchestrator.Fixtures.{
  settings, library, task_in, run_in, leased_run, approval_row, db_with, session_of, result_or,
  ended_run, ended,
}
use hermes_orchestrator.Task.Base.{lifecycle_error}
use hermes_orchestrator.Usage.Ledger.{ingest_run_usage, profile_of, largest}
use hermes_orchestrator.Task.Dispatch.{
  DispatchCommand, dispatch_task, dispatch_new, check_task, control_dispatch, insert_run,
}
use hermes_orchestrator.Usage.Controls.{
  enforce_dispatch_controls, dispatch_denial, profile_denial, outage_denial, load_denial,
  projected_tokens, sum_tokens,
}
use hermes_orchestrator.Usage.Limits.{resolve_limits}
use hermes_orchestrator.Task.Dispatch.Admission.{
  Admitted, Counted, dispatch-Admitted, dispatch-Counted,
}
use hermes_orchestrator.Task.Dispatch.Refusal.{SameRuns, dispatch_error}
use hermes_orchestrator.Task.Approval.{
  approved, resolve_approval, latest_approval, key_taken, check_decider, decide, apply_decision,
}
use hermes_orchestrator.Task.Approval.Decided.{Resolved, resolve-Resolved}
use hermes_orchestrator.Task.Approval.Redispatch.{dispatched_again, approve-dispatching}
use hermes_orchestrator.Task.Cancel.{
  cancel_task, cancel_run, reject_pending, reject_approval, pending_approvals,
}
use hermes_orchestrator.Task.Cancel.Cleared.{cancel-cleared}
use hermes_orchestrator.Task.Create.{TaskCreate, create_task, unmet_dependencies}
use hermes_orchestrator.Task.Create.Replay.{create_again}
use hermes_orchestrator.Task.Comment.{add_comment}
use hermes_orchestrator.Task.Comment.Replay.{comment_again}

abbrev dispatch_command : DispatchCommand
dispatch_command = record {
  worker_actor_id = "wanda";
  requested_profile_id = "standard";
  timeout_seconds = 60;
  requires_approval = true;
  approval_action = "dispatch";
  approval_ttl_seconds = 600;
}

abbrev new_task : Session
new_task = session_of (db_with (task_in TaskStatus.pending ∷ []) [] [])

abbrev dispatched : Result (Run × Bool) × Session
dispatched = dispatch_task library settings 1 "ana" "k1" dispatch_command none new_task

abbrev dispatched_run : Run
dispatched_run = (result_or dispatched.0 (leased_run, true)).0

dispatch-Admitted_example :
    (task : Task) × (Table.get 1 new_task.current.tasks ≡ some task)
    × Admitted task dispatch_command new_task
unfolding dispatch_task ◌>>=◌ Table.get Table.put dispatch_new check_task unmet_dependencies
    control_dispatch enforce_dispatch_controls dispatch_denial profile_denial outage_denial
    load_denial projected_tokens sum_tokens insert_run resolve_limits profile_of largest as_natural
    get
dispatch-Admitted_example =
    dispatch-Admitted library settings 1 "ana" "k1" dispatch_command none new_task dispatched.1
      dispatched_run refl

dispatch-Counted_example :
    (task : Task) × Counted settings 1 dispatch_command new_task dispatched.1 task
unfolding dispatch_task ◌>>=◌ Table.get Table.put dispatch_new check_task unmet_dependencies
    control_dispatch enforce_dispatch_controls dispatch_denial profile_denial outage_denial
    load_denial projected_tokens sum_tokens insert_run resolve_limits profile_of largest as_natural
    get
dispatch-Counted_example =
    dispatch-Counted library settings 1 "ana" "k1" dispatch_command none new_task dispatched.1
      dispatched_run refl

-- A worker that is the reviewer of the task is refused.
abbrev own_review : DispatchCommand
own_review = record dispatch_command { worker_actor_id = "rita" }

dispatch_error_example :
    SameRuns new_task.current
      (request (dispatch_task library settings 1 "ana" "k1" own_review none) 200 new_task.current).1
unfolding dispatch_task ◌>>=◌ Table.get Table.put request dispatch_new check_task
dispatch_error_example =
    dispatch_error library settings 1 "ana" "k1" own_review none 200 new_task.current
      (lifecycle_error Code.self_review_denied 403) refl

-- A run that waits for the approval of its dispatch.
abbrev asking : Session
asking = session_of (
    db_with (task_in TaskStatus.awaiting_approval ∷ []) (run_in RunStatus.awaiting_approval ∷ [])
      (approval_row ∷ []))

abbrev resolved : Result (Approval × Bool) × Session
resolved = resolve_approval library settings 7 "rita" "k2" approved "good" none asking

resolve-Resolved_example :
    Resolved 7 "rita" "k2" approved "good" 200 asking resolved.1
      (result_or resolved.0 (approval_row, true)).0
      false
unfolding resolve_approval ◌>>=◌ Table.get Table.put latest_approval check_decider decide
    apply_decision
resolve-Resolved_example =
    resolve-Resolved library settings 7 "rita" "k2" approved "good" none asking resolved.1
      (result_or resolved.0 (approval_row, true)).0 false refl

-- The run has timed out, and its approval is still pending.
approve-dispatching_example :
    Table.get 7
      (resolve_approval library settings 7 "rita" "k2" approved "late" none ended).1.committed.runs
    ≡ some (dispatched_again 200 ended_run)
unfolding Table.get latest_approval key_taken
approve-dispatching_example =
    approve-dispatching library settings "rita" "k2" "late" ended_run (task_in TaskStatus.timed_out)
      approval_row none ended refl refl refl refl refl
      (record { not_worker = refl; reviewer = λ e. refl; finished = λ e. e; in_time = refl }) refl

abbrev cancelled : Result (Task × Bool) × Session
cancelled = cancel_task library settings 1 "ana" "k3" "obsolete" none asking

cancel-cleared_example :
    pending_approvals
      (request (cancel_task library settings 1 "ana" "k3" "obsolete" none) 200 asking.current).1
      1
    ≡ []
unfolding cancel_task ◌>>=◌ Table.get Table.put ingest_run_usage cancel_run largest
    pending_approvals reject_pending reject_approval request
cancel-cleared_example =
    cancel-cleared library settings 1 "ana" "k3" "obsolete" none 200 asking.current
      (result_or cancelled.0 (task_in TaskStatus.pending, true)) (refl, tt) refl

abbrev create_command : TaskCreate
create_command = record {
  operation_id = none;
  objective = "report";
  acceptance_criteria = [];
  assignee_actor_id = some "wanda";
  reviewer_actor_id = none;
  independent_review = false;
  priority = 5;
  parent_task_id = none;
  workflow_ref = none;
  dependency_ids = [];
  budget = end;
  references = [];
  deadline_at = none;
}

abbrev empty : Session
empty = session_of (db_with [] [] [])

abbrev created : Result (Task × Bool) × Session
created = create_task library "ana" "k4" create_command empty

abbrev created_task : Task
created_task = (result_or created.0 (task_in TaskStatus.pending, true)).0

create_again_example :
    create_task library "ana" "k4" create_command created.1 ≡ (ok (created_task, true), created.1)
unfolding create_task ◌>>=◌ Table.get
create_again_example =
    create_again library "ana" "k4" create_command empty created.1 created_task false refl

-- The dependency does not exist.
abbrev commented : Result (TaskComment × Bool) × Session
commented = add_comment 1 "ana" "k6" "looks good" new_task

abbrev new_comment : TaskComment
new_comment = record {
  id = 100;
  task_id = 1;
  actor_id = "ana";
  body = "looks good";
  idempotency_key = "k6";
}

comment_again_example :
    add_comment 1 "ana" "k6" "looks good" commented.1 ≡ (ok (new_comment, true), commented.1)
unfolding add_comment ◌>>=◌ Table.get
comment_again_example =
    comment_again 1 "ana" "k6" "looks good" new_task commented.1 new_comment false refl
