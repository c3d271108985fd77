-- ===== src/Task/Handoff.antt =====
-- `handoff_task` of task_services.py: a worker hands its result over while its run goes on.
pub mod Settled
pub mod Delivered
use hermes_orchestrator.Prelude.{
  ℕ, ◌+◌, Bool, true, false, ◌||◌, ◌&&◌, not, String, Option, none, some, List, [], ◌∷◌, ◌++◌,
  str_eq, str_in, ◌==◌, ltb, filter, or_else, some_and, if◌then◌else◌,
}
use hermes_orchestrator.Models.Json.{
  Json, null, uuid, text, object, Fields, end, field, get, set, as_object, as_text,
}
use hermes_orchestrator.Models.Status.{RunStatus, TaskStatus, ApprovalStatus, run_status_eq}
use hermes_orchestrator.Models.Rows.{Task, Run, Approval, TaskComment}
use hermes_orchestrator.Models.Settings.{TextLibrary, seconds}
use hermes_orchestrator.Store.Exec.{
  Db, Exec, Exception, Code, error, pure, gets, modify, raise_if, or_raise, effective_time, add_row,
  save_task, save_run, commit, ◌>>=◌, ◌>>◌,
}
use hermes_orchestrator.Usage.Circuit.{opt_str_eq}
use hermes_orchestrator.Task.Base.{append_audit, get_task, get_run, lifecycle_error}
use hermes_orchestrator.Task.Approval.{latest, is_completion}
use hermes_orchestrator.Task.Comment.{comment_by_key, new_comment}
use hermes_orchestrator.Task.Transition.{handoff_of}

pub record TaskHandoffResult : Type 0 where
  pub task : Task
  pub run : Run
  pub comment : TaskComment
  pub approval : Option Approval
  pub handoff : Fields
  pub replayed : Bool

-- `{key: value for key, value in persisted.items() if key != "run_id"}`
without_run : Fields → Fields
without_run end = end
without_run (field k v d) =
    let rest = without_run d in if str_eq k "run_id" then rest else field k v rest

-- The run that a stored handoff names.
handed_run : Option Json → Option ℕ
handed_run (some (uuid id)) = some id
handed_run _ = none

completion_of : ℕ → Db → Option Approval
completion_of run_id d = latest (filter (λ a. a.run_id == run_id && is_completion a) d.approvals)

-- A key that was used before: the same handoff, or a conflict.
unfoldable pub replay_handoff :
    TextLibrary → ℕ → String → Fields → TaskComment → Exec TaskHandoffResult
unfolding without_run handed_run completion_of get_task get_run
replay_handoff lib task_id actor_id handoff existing = do
  let persisted = or_else (lib.load existing.body) end
  raise_if
      (not (existing.task_id == task_id)
        || not (str_eq existing.actor_id actor_id)
        || not (lib.same (without_run persisted) handoff))
      (error Code.idempotency_conflict)
  task ← get_task task_id
  run_id ← or_raise (handed_run (get "run_id" persisted)) Exception.value_error
  run ← get_run run_id
  approval ← gets (completion_of run.id)
  pure (record {
    task = task;
    run = run;
    comment = existing;
    approval = approval;
    handoff = or_else (handoff_of run) (set "comment_id" (uuid existing.id) persisted);
    replayed = true;
  })

unfoldable pub later_attempt : Run → Option Run → Option Run
later_attempt r none = some r
later_attempt r (some q) = if ltb r.attempt_number q.attempt_number then some q else some r

unfoldable pub last_attempt : List Run → Option Run
unfolding later_attempt
last_attempt [] = none
last_attempt (r ∷ rs) = later_attempt r (last_attempt rs)

-- The running run of the task with the highest attempt.
unfoldable pub running_run : ℕ → Db → Option Run
unfolding last_attempt
running_run task_id d =
    last_attempt (
      filter (λ (r : Run). r.task_id == task_id && run_status_eq r.status RunStatus.running) d.runs)

abbrev pub is_outcome : Option String → Bool
is_outcome outcome = some_and (λ s. str_in s ("blocked" ∷ "completed" ∷ [])) outcome

unfoldable pub completion_approval : Task → ℕ → String → ℕ → String → ℕ → ℕ → ℕ → Approval
completion_approval task run_id outcome comment_id actor_id expires clock id = record {
  id = id;
  run_id = run_id;
  action = "completion";
  context_snapshot =
      field "task_id" (uuid task.id)
        (field "handoff_comment_id" (uuid comment_id) (field "outcome" (text outcome) end));
  status = ApprovalStatus.pending;
  requested_by_actor_id = actor_id;
  expires_at = expires;
  decided_by_actor_id = none;
  decision_reason = none;
  decision_idempotency_key = none;
  decided_at = none;
  created_at = clock;
}

-- The approval and the task that waits for it.
unfoldable pub open_review :
    Task → ℕ → String → ℕ → String → ℕ → Option ℕ → Exec (String × Option Approval)
unfolding completion_approval
open_review task run_id outcome comment_id actor_id ttl now = do
  effective_now ← effective_time now
  clock ← effective_time none
  let approval =
      completion_approval task run_id outcome comment_id actor_id (effective_now + seconds ttl)
        clock
  id ← add_row λ id d. record d { approvals = d.approvals ++ approval id ∷ [] }
  save_task (record task { status = TaskStatus.awaiting_approval })
  pure ("task.completion_requested", some (approval id))

-- A completed handoff waits for a review by someone else.
unfoldable pub request_completion :
    Task → ℕ → String → ℕ → String → ℕ → Option ℕ → Exec (String × Option Approval)
unfolding open_review
request_completion task run_id outcome comment_id actor_id ttl now = do
  raise_if (opt_str_eq task.reviewer_actor_id (some actor_id))
      (lifecycle_error Code.self_review_denied 403)
  open_review task run_id outcome comment_id actor_id ttl now

-- The task's status, the event and no approval.
unfoldable pub settle_as : Task → TaskStatus → String → Exec (String × Option Approval)
settle_as task status event = do save_task (record task { status = status }); pure (event, none)

-- The task's status by the outcome, the event and the approval that is asked for.
unfoldable pub settle_task :
    Task → ℕ → String → ℕ → String → ℕ → Option ℕ → Exec (String × Option Approval)
unfolding request_completion settle_as
settle_task task run_id outcome comment_id actor_id ttl now =
    if str_eq outcome "blocked"
    then settle_as task TaskStatus.blocked "task.blocked"
    else if task.independent_review
    then request_completion task run_id outcome comment_id actor_id ttl now
    else settle_as task TaskStatus.completed "task.completed_handoff"

-- The run with the handoff among its details.
abbrev pub handed_over : Run → Fields → Run
handed_over r handoff = record r {
  error_details = set "agent_handoff" (object handoff) r.error_details;
}

-- The audit event, the commit and the result.
unfoldable pub finish_handoff :
    Task
    → Run
    → String
    → TaskComment
    → Fields
    → String
    → String × Option Approval
    → Exec TaskHandoffResult
unfolding append_audit get_task get_run
finish_handoff task run actor_id comment persisted outcome settled = do
  append_audit actor_id settled.0 "task" task.id (
      field "run_id" (uuid run.id) (
        field "comment_id" (uuid comment.id) (
          field "outcome" (text outcome)
            (field "block_type" (or_else (get "block_type" persisted) null) end))))
  commit
  task' ← get_task task.id
  run' ← get_run run.id
  pure (record {
    task = task';
    run = run';
    comment = comment;
    approval = settled.1;
    handoff = persisted;
    replayed = false;
  })

-- The writes of a new handoff.
unfoldable pub deliver :
    TextLibrary
    → Task
    → Run
    → String
    → String
    → Fields
    → String
    → ℕ
    → Option ℕ
    → Exec TaskHandoffResult
unfolding settle_task new_comment finish_handoff
deliver lib task run actor_id key given outcome ttl now = do
  let handoff = set "run_id" (uuid run.id) given
  id ← add_row λ id d. record d {
    task_comments = d.task_comments ++ new_comment task.id actor_id key (lib.dump handoff) id ∷ [];
  }
  let persisted = set "comment_id" (uuid id) handoff
  save_run (handed_over run persisted)
  settled ← settle_task task run.id outcome id actor_id ttl now
  finish_handoff task run actor_id (new_comment task.id actor_id key (lib.dump handoff) id)
      persisted outcome settled

-- The guards of a new handoff, and its writes.
unfoldable pub handoff_new :
    TextLibrary → ℕ → String → String → Fields → ℕ → Option ℕ → Exec TaskHandoffResult
unfolding deliver running_run get_task
handoff_new lib task_id actor_id key given ttl now = do
  task ← get_task task_id
  row ← gets (running_run task.id)
  run ← or_raise row (error Code.active_run_not_found)
  raise_if (not (str_eq run.worker_actor_id actor_id)) (lifecycle_error Code.worker_mismatch 403)
  let outcome = as_text (get "outcome" given)
  raise_if (not (is_outcome outcome)) (error Code.invalid_handoff)
  deliver lib task run actor_id key given (or_else outcome "") ttl now

unfoldable pub replay_or_handoff :
    TextLibrary
    → ℕ
    → String
    → String
    → Fields
    → ℕ
    → Option ℕ
    → Option TaskComment
    → Exec TaskHandoffResult
unfolding replay_handoff handoff_new
replay_or_handoff lib task_id actor_id key given ttl now (some existing) =
    replay_handoff lib task_id actor_id given existing
replay_or_handoff lib task_id actor_id key given ttl now none =
    handoff_new lib task_id actor_id key given ttl now

unfoldable pub handoff_task :
    TextLibrary → ℕ → String → String → Fields → ℕ → Option ℕ → Exec TaskHandoffResult
unfolding replay_or_handoff comment_by_key
handoff_task lib task_id actor_id key given ttl now = do
  existing ← gets (comment_by_key key)
  replay_or_handoff lib task_id actor_id key given ttl now existing
