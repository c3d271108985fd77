-- ===== src/Task/Approval/Applied.antt =====
-- What a decision does to the task and the run (`resolve_approval`).
use hermes_orchestrator.Prelude.{ℕ, ◌≡◌, refl, ◌∙◌, ap, Bool, true, false, String, some, none}
use hermes_orchestrator.Models.Status.{TaskStatus, RunStatus}
use hermes_orchestrator.Models.Rows.{Task, Run}
use hermes_orchestrator.Models.Settings.{Settings, TextLibrary}
use hermes_orchestrator.Store.Table
use hermes_orchestrator.Store.Exec.{Session, Run-Keyed, Task-Keyed, Approval-Keyed, pure, ◌>>=◌}
use hermes_orchestrator.Store.Keeps.{LeavesLifecycle, LeavesLifecycle-bind, LeavesLifecycle-pure}
use hermes_orchestrator.Usage.Ledger.{ingest_run_usage}
use hermes_orchestrator.Usage.Ledger.Once.{ingest-LeavesLifecycle}
use hermes_orchestrator.Task.Approval.{Decision, approved, rejected, failed_run, apply_decision}

-- The task and its row after a decision about a completion, or about a dispatch.
pub record Follows (completion : Bool) (decision : Decision) (task after : Task) : Type 0 where
  pub refused : decision ≡ rejected → after.status ≡ TaskStatus.failed
  pub completed : decision ≡ approved → completion ≡ true → after.status ≡ TaskStatus.completed
  pub dispatched : decision ≡ approved → completion ≡ false → after.status ≡ TaskStatus.dispatched
  pub rest : after ≡ record task { status = after.status }

-- The run and its row after a decision at that time.
pub record RunFollows (completion : Bool) (decision : Decision) (now : ℕ) (run after : Run)
    : Type 0 where
  pub kept : completion ≡ true → after ≡ run
  pub dispatched :
      completion ≡ false
      → decision ≡ approved
      → (after.status ≡ RunStatus.dispatching) × (after.next_attempt_at ≡ now)
  pub failed :
      completion ≡ false
      → decision ≡ rejected
      → (after.status ≡ RunStatus.failed)
        × (after.error_code ≡ some "approval_rejected")
        × (after.finished_at ≡ some now)
        × (after.lease_owner ≡ none)

module _ (lib : TextLibrary) (settings : Settings) (actor_id : String) (run : Run) (task : Task)
    (now : ℕ) where
  rejecting-LeavesLifecycle : LeavesLifecycle (
      ingest_run_usage lib (failed_run "approval_rejected" now run) settings actor_id >>= λ _.
      pure tt)
  rejecting-LeavesLifecycle =
      LeavesLifecycle-bind
        (ingest_run_usage lib (failed_run "approval_rejected" now run) settings actor_id)
        (λ _. pure tt)
        (ingest-LeavesLifecycle lib (failed_run "approval_rejected" now run) settings actor_id)
        (λ _. LeavesLifecycle-pure tt)

  pub apply_decision-approvals :
      (completion : Bool) (decision : Decision) (s : Session)
      → (apply_decision lib settings actor_id run task completion decision now
          s).1.current.approvals
        ≡ s.current.approvals
  unfolding apply_decision ◌>>=◌
  apply_decision-approvals true approved s = refl
  apply_decision-approvals true rejected s = refl
  apply_decision-approvals false approved s = refl
  apply_decision-approvals false rejected s = rejecting-LeavesLifecycle.approvals _

  pub apply_decision-Follows :
      (completion : Bool) (decision : Decision) (s : Session)
      → Table.get task.id s.current.tasks ≡ some task
      → (t : Task) × (Table.get task.id
            (apply_decision lib settings actor_id run task completion decision now
              s).1.current.tasks
          ≡ some t)
        × Follows completion decision task t
  unfolding apply_decision ◌>>=◌
  apply_decision-Follows true approved s row = (
    record task { status = TaskStatus.completed },
    Table.get-put_self (record task { status = TaskStatus.completed }) task s.current.tasks row,
    record { rest = refl; refused = λ e. cc; completed = λ e c. refl; dispatched = λ e c. cc },
  )
  apply_decision-Follows true rejected s row = (
    record task { status = TaskStatus.failed },
    Table.get-put_self (record task { status = TaskStatus.failed }) task s.current.tasks row,
    record { rest = refl; refused = λ e. refl; completed = λ e c. cc; dispatched = λ e c. cc },
  )
  apply_decision-Follows false approved s row = (
    record task { status = TaskStatus.dispatched },
    Table.get-put_self (record task { status = TaskStatus.dispatched }) task s.current.tasks row,
    record { rest = refl; refused = λ e. cc; completed = λ e c. cc; dispatched = λ e c. refl },
  )
  apply_decision-Follows false rejected s row = (
    record task { status = TaskStatus.failed },
    ap (Table.get task.id) (rejecting-LeavesLifecycle.tasks _)
        ∙ Table.get-put_self (record task { status = TaskStatus.failed }) task s.current.tasks row,
    record { rest = refl; refused = λ e. refl; completed = λ e c. cc; dispatched = λ e c. cc },
  )

  pub apply_decision-RunFollows :
      (completion : Bool) (decision : Decision) (s : Session)
      → Table.get run.id s.current.runs ≡ some run
      → (r : Run) × (Table.get run.id
            (apply_decision lib settings actor_id run task completion decision now s).1.current.runs
          ≡ some r)
        × RunFollows completion decision now run r
  unfolding apply_decision ◌>>=◌
  apply_decision-RunFollows true approved s row =
      (run, row, record { kept = λ c. refl; dispatched = λ c e. cc; failed = λ c e. cc })
  apply_decision-RunFollows true rejected s row =
      (run, row, record { kept = λ c. refl; dispatched = λ c e. cc; failed = λ c e. cc })
  apply_decision-RunFollows false approved s row = (
    record run { status = RunStatus.dispatching; next_attempt_at = now },
    Table.get-put_self (record run { status = RunStatus.dispatching; next_attempt_at = now }) run
        s.current.runs row,
    record { kept = λ c. cc; dispatched = λ c e. (refl, refl); failed = λ c e. cc },
  )
  apply_decision-RunFollows false rejected s row = (
    failed_run "approval_rejected" now run,
    ap (Table.get run.id) (rejecting-LeavesLifecycle.runs _)
        ∙ Table.get-put_self (failed_run "approval_rejected" now run) run s.current.runs row,
    record { kept = λ c. cc; dispatched = λ c e. cc; failed = λ c e. (refl, refl, refl, refl) },
  )
