-- ===== src/Task/Terminal/Additions.antt =====
-- The invariant through the operations that add rows: creation, comments and dispatch.
use hermes_orchestrator.Prelude.{
  suc, ◌≡◌, ℕ, String, Option, none, some, List, [], ◌∷◌, ◌++◌, arith, All-append,
}
use hermes_orchestrator.Models.Rows.{Approval, Task, Run, TaskComment}
use hermes_orchestrator.Models.Settings.{Settings, TextLibrary}
use hermes_orchestrator.Store.Exec.{add_row, Run-Keyed, Approval-Keyed, Db, Exec}
use hermes_orchestrator.Store.Fresh.{append-FreshIds, more-FreshIds}
use hermes_orchestrator.Store.Keeps.{
  Keeps-add_row, Keeps, Keeps-when, Keeps-if, Keeps-modify, keeps_rules,
}
use hermes_orchestrator.Usage.Controls.{
  Denial, deny, deny_if, soft_warning, enforce_dispatch_controls,
}
use hermes_orchestrator.Task.Create.{
  TaskCreate, insert_task, replay_task, replay_or_insert, create_task,
}
use hermes_orchestrator.Task.Comment.{
  insert_comment, replay_comment, replay_or_comment, add_comment,
}
use hermes_orchestrator.Task.Dispatch.{
  DispatchCommand, new_run, request_approval, block_if_unmet, insert_run, check_task, catch_control,
  control_dispatch, dispatch_new, replay_run, replay_or_dispatch, dispatch_task,
}
use hermes_orchestrator.Task.Terminal.{EndedRun, WellFormed}
use hermes_orchestrator.Task.Terminal.Steps.{
  save_task-WellFormed, add_audit-WellFormed, get_task-WellFormed, get_run-WellFormed,
  uuid4-WellFormed,
}

ruleset steps = (
  keeps_rules, Keeps-when, Keeps-if, Keeps-modify, save_task-WellFormed, add_audit-WellFormed,
  get_task-WellFormed, get_run-WellFormed, uuid4-WellFormed,
)

insert_task-WellFormed :
    (actor_id key request_hash : String) (p : TaskCreate)
    → Keeps WellFormed (insert_task actor_id key request_hash p)
unfolding insert_task
insert_task-WellFormed actor_id key request_hash p = search steps depth 24

replay_task-WellFormed :
    (actor_id request_hash : String) (t : Task)
    → Keeps WellFormed (replay_task actor_id request_hash t)
unfolding replay_task
replay_task-WellFormed actor_id request_hash t = search steps depth 14

replay_or_insert-WellFormed :
    (actor_id key request_hash : String) (p : TaskCreate) (o : Option Task)
    → Keeps WellFormed (replay_or_insert actor_id key request_hash p o)
unfolding replay_or_insert
replay_or_insert-WellFormed actor_id key request_hash p none =
    insert_task-WellFormed actor_id key request_hash p
replay_or_insert-WellFormed actor_id key request_hash p (some t) =
    replay_task-WellFormed actor_id request_hash t

pub create_task-WellFormed :
    (lib : TextLibrary) (actor_id key : String) (p : TaskCreate)
    → Keeps WellFormed (create_task lib actor_id key p)
unfolding create_task
create_task-WellFormed lib actor_id key p = search (steps, replay_or_insert-WellFormed)

insert_comment-WellFormed :
    (task_id : ℕ) (actor_id key body : String)
    → Keeps WellFormed (insert_comment task_id actor_id key body)
unfolding insert_comment
insert_comment-WellFormed task_id actor_id key body = search steps depth 20

replay_or_comment-WellFormed :
    (task_id : ℕ) (actor_id key body : String) (o : Option TaskComment)
    → Keeps WellFormed (replay_or_comment task_id actor_id key body o)
unfolding replay_or_comment replay_comment
replay_or_comment-WellFormed task_id actor_id key body none =
    insert_comment-WellFormed task_id actor_id key body
replay_or_comment-WellFormed task_id actor_id key body (some c) = search steps depth 14

pub add_comment-WellFormed :
    (task_id : ℕ) (actor_id key body : String)
    → Keeps WellFormed (add_comment task_id actor_id key body)
unfolding add_comment
add_comment-WellFormed task_id actor_id key body = search (steps, replay_or_comment-WellFormed)

deny_if-WellFormed :
    (actor_id : String) (task : Task) (denial : Option Denial)
    → Keeps WellFormed (deny_if actor_id task denial)
unfolding deny_if deny
deny_if-WellFormed actor_id task none = search steps
deny_if-WellFormed actor_id task (some denial) = search steps depth 14

enforce-WellFormed :
    (task : Task) (worker profile_id actor_id : String) (settings : Settings) (now : Option ℕ)
    → Keeps WellFormed (enforce_dispatch_controls task worker profile_id actor_id settings now)
unfolding enforce_dispatch_controls soft_warning
enforce-WellFormed task worker profile_id actor_id settings now =
    search (steps, deny_if-WellFormed) depth 20

Keeps-catch_control :
    {A : Type 0} {P : Db → Type 0} (m : Exec A) → Keeps P m → Keeps P (catch_control m)
unfolding catch_control
Keeps-catch_control m km = record { at = λ s h k. km.at s h k }

control_dispatch-WellFormed :
    (settings : Settings) (task : Task) (actor_id : String) (p : DispatchCommand) (now : ℕ)
    → Keeps WellFormed (control_dispatch settings task actor_id p now)
unfolding control_dispatch
control_dispatch-WellFormed settings task actor_id p now =
    Keeps-catch_control _ (enforce-WellFormed task _ _ actor_id settings _)

block_if_unmet-WellFormed :
    (task : Task) (unmet : List ℕ) → Keeps WellFormed (block_if_unmet task unmet)
unfolding block_if_unmet
block_if_unmet-WellFormed task [] = search steps
block_if_unmet-WellFormed task (_ ∷ _) = search steps depth 14

check_task-WellFormed : (task : Task) (p : DispatchCommand) → Keeps WellFormed (check_task task p)
unfolding check_task
check_task-WellFormed task p = search (steps, block_if_unmet-WellFormed) depth 14

new_run-Ended :
    (task : Task) (p : DispatchCommand) (key dispatch_hash : String) (id attempt now clock : ℕ)
    → EndedRun (new_run task p key dispatch_hash id attempt now clock)
unfolding new_run
new_run-Ended task p key dispatch_hash id attempt now clock = λ e. ground arith

add_run-WellFormed :
    (r : ℕ → Run)
    → ((id : ℕ) → EndedRun (r id))
    → ((id : ℕ) → (r id).id ≡ id)
    → Keeps WellFormed (add_row λ id d. record d { runs = d.runs ++ r id ∷ [] })
add_run-WellFormed r ended own = Keeps-add_row _ (λ d h. (
  (All-append EndedRun d.runs _ h.0.0 (ended d.next_id, tt), h.0.1),
  (
    append-FreshIds (r d.next_id) d.next_id d.runs (own d.next_id) h.1.0,
    more-FreshIds d.next_id (suc d.next_id) d.approvals (omega arith) h.1.1,
  ),
))

pub add_approval-WellFormed :
    (a : ℕ → Approval)
    → ((id : ℕ) → (a id).id ≡ id)
    → Keeps WellFormed (add_row λ id d. record d { approvals = d.approvals ++ a id ∷ [] })
add_approval-WellFormed a own = Keeps-add_row _ (λ d h. (
  h.0,
  (
    more-FreshIds d.next_id (suc d.next_id) d.runs (omega arith) h.1.0,
    append-FreshIds (a d.next_id) d.next_id d.approvals (own d.next_id) h.1.1,
  ),
))

request_approval-WellFormed :
    (task : Task) (p : DispatchCommand) (actor_id : String) (run_id now : ℕ)
    → Keeps WellFormed (request_approval task p actor_id run_id now)
unfolding request_approval
request_approval-WellFormed task p actor_id run_id now =
    search (steps, add_approval-WellFormed) depth 14

insert_run-WellFormed :
    (task : Task) (p : DispatchCommand) (actor_id key dispatch_hash : String) (now : ℕ)
    → Keeps WellFormed (insert_run task p actor_id key dispatch_hash now)
unfolding insert_run
insert_run-WellFormed task p actor_id key dispatch_hash now =
    search (steps, add_run-WellFormed, new_run-Ended, request_approval-WellFormed) depth 24

dispatch_new-WellFormed :
    (settings : Settings) (task_id : ℕ) (actor_id key dispatch_hash : String) (p : DispatchCommand)
    (now : ℕ)
    → Keeps WellFormed (dispatch_new settings task_id actor_id key dispatch_hash p now)
unfolding dispatch_new
dispatch_new-WellFormed settings task_id actor_id key dispatch_hash p now =
    search (steps, check_task-WellFormed, control_dispatch-WellFormed, insert_run-WellFormed) depth
      14

replay_or_dispatch-WellFormed :
    (settings : Settings) (task_id : ℕ) (actor_id key dispatch_hash : String) (p : DispatchCommand)
    (now : ℕ) (o : Option Run)
    → Keeps WellFormed (replay_or_dispatch settings task_id actor_id key dispatch_hash p now o)
unfolding replay_or_dispatch replay_run
replay_or_dispatch-WellFormed settings task_id actor_id key dispatch_hash p now none =
    dispatch_new-WellFormed settings task_id actor_id key dispatch_hash p now
replay_or_dispatch-WellFormed settings task_id actor_id key dispatch_hash p now (some r) =
    search steps depth 14

pub dispatch_task-WellFormed :
    (lib : TextLibrary) (settings : Settings) (task_id : ℕ) (actor_id key : String)
    (p : DispatchCommand) (now : Option ℕ)
    → Keeps WellFormed (dispatch_task lib settings task_id actor_id key p now)
unfolding dispatch_task
dispatch_task-WellFormed lib settings task_id actor_id key p now =
    search (steps, replay_or_dispatch-WellFormed) depth 14
