-- ===== src/Task/Approval/Deciders.antt =====
-- Who may decide an approval, and when (`resolve_approval`).
use hermes_orchestrator.Prelude.{ℕ, ◌≡◌, true, false, String, some, arith, str_eq, leb}
use hermes_orchestrator.Models.Status.{RunStatus, run_status_eq}
use hermes_orchestrator.Models.Rows.{Task, Run, Approval}
use hermes_orchestrator.Store.Exec.{Session, ok, Run-Keyed, Task-Keyed, Approval-Keyed, ◌>>=◌}
use hermes_orchestrator.Usage.Circuit.{opt_str_eq}
use hermes_orchestrator.Task.Approval.{is_completion, check_decider}

-- The actor may decide the approval of that run, and in time.
pub record MayDecide (actor_id : String) (run : Run) (task : Task) (a : Approval) (now : ℕ)
    : Type 0 where
  pub not_worker : str_eq actor_id run.worker_actor_id ≡ false
  pub reviewer :
      task.independent_review ≡ true → opt_str_eq task.reviewer_actor_id (some actor_id) ≡ true
  pub finished : is_completion a ≡ true → run_status_eq run.status RunStatus.completed ≡ true
  pub in_time : leb a.expires_at now ≡ false

pub check_decider_state :
    (actor_id : String) (run : Run) (task : Task) (a : Approval) (s s1 : Session)
    → check_decider actor_id run task a s ≡ (ok tt, s1)
    → s1 ≡ s
unfolding check_decider ◌>>=◌
check_decider_state actor_id run task a s s1 h = ground arith

pub check_decider-MayDecide :
    (actor_id : String) (run : Run) (task : Task) (a : Approval) (now : ℕ) (s : Session)
    → (check_decider actor_id run task a s).0 ≡ ok tt
    → leb a.expires_at now ≡ false
    → MayDecide actor_id run task a now
unfolding check_decider ◌>>=◌
check_decider-MayDecide actor_id run task a now s passed in_time = record {
  not_worker = ground arith;
  reviewer = λ h. ground arith;
  finished = λ h. ground arith;
  in_time = in_time;
}
