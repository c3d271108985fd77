-- ===== src/Task/Approval.antt =====
-- `resolve_approval` of task_services.py.
pub mod Applied
pub mod Bears
pub mod Deciders
pub mod Stored
pub mod Decided
pub mod Redispatch
use hermes_orchestrator.Prelude.{
  ℕ, Bool, true, false, ◌&&◌, ◌||◌, not, String, Option, none, some, List, [], ◌∷◌, str_eq, leb,
  ltb, ◌==◌, any, filter, is_some, some_and, if◌then◌else◌,
}
use hermes_orchestrator.Models.Json.{Fields, end, field, uuid}
use hermes_orchestrator.Models.Status.{
  RunStatus, TaskStatus, ApprovalStatus, run_status_eq, approval_status_eq,
}
use hermes_orchestrator.Models.Rows.{Task, Run, Approval}
use hermes_orchestrator.Models.Settings.{Settings, TextLibrary}
use hermes_orchestrator.Store.Exec.{
  Db, Exec, Exception, Code, error, pure, raise, gets, or_raise, raise_if, when, effective_time,
  commit, save_task, save_run, save_approval, ◌>>=◌, ◌>>◌,
}
use hermes_orchestrator.Usage.Circuit.{opt_str_eq}
use hermes_orchestrator.Usage.Ledger.{ingest_run_usage}
use hermes_orchestrator.Task.Base.{
  lifecycle_error, append_audit, get_task, get_run, clear_run_lease,
}

-- `decision`: the API admits these two.
pub data Decision : Type 0 where
  approved rejected : Decision

abbrev pub decision_status : Decision → ApprovalStatus
decision_status approved = ApprovalStatus.approved
decision_status rejected = ApprovalStatus.rejected

abbrev pub decision_event : Decision → String
decision_event approved = "approval.approved"
decision_event rejected = "approval.rejected"

-- The last of the items that was created latest.
pub latest : List Approval → Option Approval
latest [] = none
latest (a ∷ rest) = elim (latest rest) [
  | none ↦ some a
  | some b ↦ if ltb b.created_at a.created_at then some a else some b
]

unfoldable pub latest_approval : Db → ℕ → Option Approval
unfolding latest
latest_approval d run_id = latest (filter (λ a. a.run_id == run_id) d.approvals)

abbrev pub is_completion : Approval → Bool
is_completion a = str_eq a.action "completion"

-- The same decision as the one that stands.
unfoldable pub same_decision : Approval → String → String → Decision → String → Bool
same_decision a actor_id key decision reason =
    opt_str_eq a.decision_idempotency_key (some key)
    && approval_status_eq a.status (decision_status decision)
    && opt_str_eq a.decided_by_actor_id (some actor_id)
    && opt_str_eq a.decision_reason (some reason)

unfoldable pub replay_approval :
    Approval → String → String → Decision → String → Exec (Approval × Bool)
unfolding same_decision
replay_approval a actor_id key decision reason = do
  raise_if (not (same_decision a actor_id key decision reason)) (error Code.idempotency_conflict)
  pure (a, true)

-- A run that ends with its approval.
unfoldable pub failed_run : String → ℕ → Run → Run
failed_run error_code now r =
    clear_run_lease
      (record r { status = RunStatus.failed; error_code = some error_code; finished_at = some now })

-- An approval decided too late: stored as expired, and then refused.
unfoldable pub expire_writes : TextLibrary → Settings → Run → Task → Approval → ℕ → Exec Unit
unfolding failed_run append_audit
expire_writes lib settings run task a now = do
  save_approval (record a { status = ApprovalStatus.expired })
  let ended = failed_run "approval_expired" now run
  when (not (is_completion a)) (save_run ended)
  save_task (record task { status = TaskStatus.failed })
  when (not (is_completion a)) (ingest_run_usage lib ended settings "system:watchdog" >> pure tt)
  append_audit "system:watchdog" "approval.expired" "approval" a.id
      (field "run_id" (uuid run.id) end)
  commit

unfoldable pub expire_approval :
    TextLibrary → Settings → Run → Task → Approval → ℕ → Exec (Approval × Bool)
unfolding expire_writes
expire_approval lib settings run task a now = do
  expire_writes lib settings run task a now
  raise (error Code.approval_expired)

unfoldable pub decided : Approval → String → String → Decision → String → ℕ → Approval
decided a actor_id key decision reason now = record a {
  status = decision_status decision;
  decided_by_actor_id = some actor_id;
  decision_reason = some reason;
  decision_idempotency_key = some key;
  decided_at = some now;
}

-- What a decision does to the run and its task; a completion leaves the run alone.
unfoldable pub apply_decision :
    TextLibrary → Settings → String → Run → Task → Bool → Decision → ℕ → Exec Unit
unfolding failed_run
apply_decision lib settings actor_id run task true approved now =
    save_task (record task { status = TaskStatus.completed })
apply_decision lib settings actor_id run task true rejected now =
    save_task (record task { status = TaskStatus.failed })
apply_decision lib settings actor_id run task false approved now = do
  save_run (record run { status = RunStatus.dispatching; next_attempt_at = now })
  save_task (record task { status = TaskStatus.dispatched })
apply_decision lib settings actor_id run task false rejected now = do
  save_run (failed_run "approval_rejected" now run)
  save_task (record task { status = TaskStatus.failed })
  ingest_run_usage lib (failed_run "approval_rejected" now run) settings actor_id
  pure tt

-- The key stands on another approval, which the unique index refuses.
unfoldable pub key_taken : Db → ℕ → String → Bool
key_taken d id key =
    any (λ a. not (a.id == id) && opt_str_eq a.decision_idempotency_key (some key)) d.approvals

unfoldable pub decide_writes :
    TextLibrary
    → Settings
    → String
    → String
    → Decision
    → String
    → Run
    → Task
    → Approval
    → ℕ
    → Exec Unit
unfolding decided key_taken append_audit
decide_writes lib settings actor_id key decision reason run task a now = do
  taken ← gets (λ d. key_taken d a.id key)
  save_approval (decided a actor_id key decision reason now)
  raise_if taken Exception.integrity
  apply_decision lib settings actor_id run task (is_completion a) decision now
  append_audit actor_id (decision_event decision) "approval" a.id (field "run_id" (uuid run.id) end)
  commit

unfoldable pub decide :
    TextLibrary
    → Settings
    → String
    → String
    → Decision
    → String
    → Run
    → Task
    → Approval
    → ℕ
    → Exec (Approval × Bool)
unfolding decide_writes decided
decide lib settings actor_id key decision reason run task a now = do
  decide_writes lib settings actor_id key decision reason run task a now
  pure (decided a actor_id key decision reason now, false)

-- Who may decide, and when.
unfoldable pub check_decider : String → Run → Task → Approval → Exec Unit
check_decider actor_id run task a = do
  raise_if (str_eq actor_id run.worker_actor_id) (lifecycle_error Code.self_review_denied 403)
  raise_if (task.independent_review && not (opt_str_eq task.reviewer_actor_id (some actor_id)))
      (lifecycle_error Code.reviewer_mismatch 403)
  raise_if (is_completion a && not (run_status_eq run.status RunStatus.completed))
      (error Code.handoff_not_terminal)

unfoldable pub decide_or_expire :
    TextLibrary
    → Settings
    → String
    → String
    → Decision
    → String
    → Run
    → Task
    → Approval
    → ℕ
    → Exec (Approval × Bool)
decide_or_expire lib settings actor_id key decision reason run task a now = do
  check_decider actor_id run task a
  if leb a.expires_at now
      then expire_approval lib settings run task a now
      else decide lib settings actor_id key decision reason run task a now

-- The approval, and whether the call was a replay.
unfoldable pub resolve_approval :
    TextLibrary
    → Settings
    → ℕ
    → String
    → String
    → Decision
    → String
    → Option ℕ
    → Exec (Approval × Bool)
unfolding get_run get_task replay_approval decide_or_expire
resolve_approval lib settings run_id actor_id key decision reason now = do
  effective_now ← effective_time now
  run ← get_run run_id
  task ← get_task run.task_id
  row ← gets (λ d. latest_approval d run.id)
  a ← or_raise row (lifecycle_error Code.approval_not_found 404)
  if is_some a.decision_idempotency_key
      then replay_approval a actor_id key decision reason
      else decide_or_expire lib settings actor_id key decision reason run task a effective_now
