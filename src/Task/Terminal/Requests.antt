-- ===== src/Task/Terminal/Requests.antt =====
-- The invariant through the operations of a task's users: creation, comments, dispatch,
-- approvals and cancellation.
use hermes_orchestrator.Prelude.{
  ℕ, refl, Bool, true, false, String, Option, none, some, List, [], ◌∷◌,
}
use hermes_orchestrator.Models.Rows.{Task, Run, Approval}
use hermes_orchestrator.Models.Settings.{Settings, TextLibrary}
use hermes_orchestrator.Store.Keeps.{Keeps, Keeps-bind, Keeps-when, Keeps-if, keeps_rules}
use hermes_orchestrator.Task.Approval.{
  Decision, approved, rejected, failed_run, replay_approval, expire_writes, expire_approval,
  apply_decision, decide_writes, decide, check_decider, decide_or_expire, resolve_approval,
}
use hermes_orchestrator.Task.Cancel.{
  cancelled_run, reject_approval, reject_each, reject_pending, cancel_run, cancel_again, close_task,
  finish_cancel, cancel_new, cancel_task,
}
use hermes_orchestrator.Task.Terminal.{EndedRun, WellFormed}
use hermes_orchestrator.Task.Terminal.Steps.{
  save_run-WellFormed, save_task-WellFormed, save_approval-WellFormed, add_audit-WellFormed,
  get_task-WellFormed, get_run-WellFormed, uuid4-WellFormed, ingest-WellFormed,
}

ruleset steps = (
  keeps_rules, Keeps-when, Keeps-if, save_run-WellFormed, save_task-WellFormed,
  save_approval-WellFormed, add_audit-WellFormed, get_task-WellFormed, get_run-WellFormed,
  uuid4-WellFormed, ingest-WellFormed,
)

failed_run-EndedRun : (code : String) (now : ℕ) (r : Run) → EndedRun (failed_run code now r)
unfolding failed_run
failed_run-EndedRun code now r h = record {
  lease_owner = refl;
  lease_expires_at = refl;
  finished_at = refl;
}

cancelled_run-EndedRun :
    (reason : String) (now : ℕ) (r : Run) → EndedRun (cancelled_run reason now r)
unfolding cancelled_run
cancelled_run-EndedRun reason now r h = record {
  lease_owner = refl;
  lease_expires_at = refl;
  finished_at = refl;
}

module _ (lib : TextLibrary) (settings : Settings) (actor_id key reason : String) (now : ℕ) where
  reject_approval-WellFormed :
      (task_id : ℕ) (a : Approval)
      → Keeps WellFormed (reject_approval lib task_id actor_id key reason now a)
  unfolding reject_approval
  reject_approval-WellFormed task_id a = search steps depth 14

  reject_each-WellFormed :
      (task_id : ℕ) (rows : List Approval)
      → Keeps WellFormed (reject_each lib task_id actor_id key reason now rows)
  unfolding reject_each
  reject_each-WellFormed task_id [] = search steps
  reject_each-WellFormed task_id (a ∷ rest) =
      Keeps-bind (reject_approval lib task_id actor_id key reason now a)
        (λ _. reject_each lib task_id actor_id key reason now rest)
        (reject_approval-WellFormed task_id a) (λ _. reject_each-WellFormed task_id rest)

  reject_pending-WellFormed :
      (task_id : ℕ) → Keeps WellFormed (reject_pending lib task_id actor_id key reason now)
  unfolding reject_pending
  reject_pending-WellFormed task_id = search (steps, reject_each-WellFormed) depth 14

  cancel_run-WellFormed :
      (active : Option Run) → Keeps WellFormed (cancel_run lib settings actor_id reason now active)
  unfolding cancel_run
  cancel_run-WellFormed none = search steps
  cancel_run-WellFormed (some r) = search (steps, cancelled_run-EndedRun) depth 14

  cancel_again-WellFormed :
      (task : Task) → Keeps WellFormed (cancel_again lib task actor_id key reason now)
  unfolding cancel_again
  cancel_again-WellFormed task = search (steps, reject_pending-WellFormed) depth 14

  cancel_new-WellFormed :
      (task : Task) → Keeps WellFormed (cancel_new lib settings task actor_id key reason now)
  unfolding cancel_new close_task finish_cancel
  cancel_new-WellFormed task =
      search (steps, cancel_run-WellFormed, reject_pending-WellFormed) depth 20

pub cancel_task-WellFormed :
    (lib : TextLibrary) (settings : Settings) (task_id : ℕ) (actor_id key reason : String)
    (now : Option ℕ)
    → Keeps WellFormed (cancel_task lib settings task_id actor_id key reason now)
unfolding cancel_task
cancel_task-WellFormed lib settings task_id actor_id key reason now =
    search (steps, cancel_again-WellFormed, cancel_new-WellFormed) depth 14

check_decider-WellFormed :
    (actor_id : String) (run : Run) (task : Task) (a : Approval)
    → Keeps WellFormed (check_decider actor_id run task a)
unfolding check_decider
check_decider-WellFormed actor_id run task a = search steps depth 14

replay_approval-WellFormed :
    (a : Approval) (actor_id key : String) (decision : Decision) (reason : String)
    → Keeps WellFormed (replay_approval a actor_id key decision reason)
unfolding replay_approval
replay_approval-WellFormed a actor_id key decision reason = search steps depth 14

module _ (lib : TextLibrary) (settings : Settings) where
  expire_approval-WellFormed :
      (run : Run) (task : Task) (a : Approval) (now : ℕ)
      → Keeps WellFormed (expire_approval lib settings run task a now)
  unfolding expire_approval expire_writes
  expire_approval-WellFormed run task a now = search (steps, failed_run-EndedRun) depth 20

  apply_decision-WellFormed :
      (actor_id : String) (run : Run) (task : Task) (c : Bool) (decision : Decision) (now : ℕ)
      → Keeps WellFormed (apply_decision lib settings actor_id run task c decision now)
  unfolding apply_decision
  apply_decision-WellFormed actor_id run task true approved now = search steps
  apply_decision-WellFormed actor_id run task true rejected now = search steps
  apply_decision-WellFormed actor_id run task false approved now =
      Keeps-bind _ _ (save_run-WellFormed _ (λ h. cc)) (λ _. save_task-WellFormed _)
  apply_decision-WellFormed actor_id run task false rejected now =
      search (steps, failed_run-EndedRun) depth 20

  decide-WellFormed :
      (actor_id key : String) (decision : Decision) (reason : String) (run : Run) (task : Task)
      (a : Approval) (now : ℕ)
      → Keeps WellFormed (decide lib settings actor_id key decision reason run task a now)
  unfolding decide decide_writes
  decide-WellFormed actor_id key decision reason run task a now =
      search (steps, apply_decision-WellFormed) depth 20

  decide_or_expire-WellFormed :
      (actor_id key : String) (decision : Decision) (reason : String) (run : Run) (task : Task)
      (a : Approval) (now : ℕ)
      → Keeps WellFormed (decide_or_expire lib settings actor_id key decision reason run task a now)
  unfolding decide_or_expire
  decide_or_expire-WellFormed actor_id key decision reason run task a now =
      search (steps, check_decider-WellFormed, expire_approval-WellFormed, decide-WellFormed) depth
        20

  pub resolve_approval-WellFormed :
      (run_id : ℕ) (actor_id key : String) (decision : Decision) (reason : String) (now : Option ℕ)
      → Keeps WellFormed (resolve_approval lib settings run_id actor_id key decision reason now)
  unfolding resolve_approval
  resolve_approval-WellFormed run_id actor_id key decision reason now =
      search (steps, replay_approval-WellFormed, decide_or_expire-WellFormed) depth 20
