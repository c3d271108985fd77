-- ===== src/Task/Approval/Redispatch.antt =====
-- What the approval of a dispatch does to its run.
use hermes_orchestrator.Prelude.{
  ℕ, ◌≡◌, refl, false, String, Option, some, or_else, is_some, Bool-cases, inl, inr,
}
use hermes_orchestrator.Models.Status.{RunStatus}
use hermes_orchestrator.Models.Rows.{Task, Run, Approval}
use hermes_orchestrator.Models.Settings.{Settings, TextLibrary}
use hermes_orchestrator.Store.Table
use hermes_orchestrator.Store.Exec.{Session, ok, Run-Keyed, Task-Keyed, Approval-Keyed, ◌>>=◌}
use hermes_orchestrator.Task.Base.{get_run, get_task}
use hermes_orchestrator.Task.Approval.{
  approved, latest_approval, is_completion, decide_writes, decide, apply_decision, key_taken,
  check_decider, decide_or_expire, resolve_approval,
}
use hermes_orchestrator.Task.Approval.Deciders.{MayDecide}

-- The run as an approval leaves it.
abbrev pub dispatched_again : ℕ → Run → Run
dispatched_again now run = record run { status = RunStatus.dispatching; next_attempt_at = now }

check_decider-passes :
    (actor_id : String) (run : Run) (task : Task) (a : Approval) (now : ℕ) (s : Session)
    → is_completion a ≡ false
    → MayDecide actor_id run task a now
    → check_decider actor_id run task a s ≡ (ok tt, s)
unfolding check_decider ◌>>=◌
check_decider-passes actor_id run task a now s is_dispatch may =
    elim (Bool-cases task.independent_review) [
      | inl review ↦ rw (may.not_worker, review, may.reviewer review, is_dispatch) refl
      | inr free ↦ rw (may.not_worker, free, is_dispatch) refl
    ]

module _ (lib : TextLibrary) (settings : Settings) (actor_id key reason : String) (run : Run)
    (task : Task) (a : Approval) where
  decide-run :
      (now : ℕ) (s : Session)
      → Table.get run.id s.current.runs ≡ some run
      → is_completion a ≡ false
      → key_taken s.current a.id key ≡ false
      → Table.get run.id
          (decide lib settings actor_id key approved reason run task a now s).1.committed.runs
        ≡ some (dispatched_again now run)
  unfolding decide decide_writes apply_decision ◌>>=◌
  decide-run now s found is_dispatch unused =
      rw (unused, is_dispatch)
        (Table.get-put_self (dispatched_again now run) run s.current.runs found)

  decide_or_expire-run :
      (now : ℕ) (s : Session)
      → Table.get run.id s.current.runs ≡ some run
      → is_completion a ≡ false
      → MayDecide actor_id run task a now
      → key_taken s.current a.id key ≡ false
      → Table.get run.id
          (decide_or_expire lib settings actor_id key approved reason run task a now
            s).1.committed.runs
        ≡ some (dispatched_again now run)
  unfolding decide_or_expire ◌>>=◌
  decide_or_expire-run now s found is_dispatch may unused =
      rw (check_decider-passes actor_id run task a now s is_dispatch may, may.in_time)
        (decide-run now s found is_dispatch unused)

  -- Where the latest approval of a run is that of a dispatch and has no decision, an actor who may
  -- decide it, in time and with a new key, approves it with the effect that the stored run is
  -- dispatching and due now, whatever the run's status was before.
  pub approve-dispatching :
      (now : Option ℕ) (s : Session)
      → Table.get run.id s.current.runs ≡ some run
      → Table.get run.task_id s.current.tasks ≡ some task
      → latest_approval s.current run.id ≡ some a
      → is_completion a ≡ false
      → is_some a.decision_idempotency_key ≡ false
      → MayDecide actor_id run task a (or_else now s.clock)
      → key_taken s.current a.id key ≡ false
      → Table.get run.id
          (resolve_approval lib settings run.id actor_id key approved reason now s).1.committed.runs
        ≡ some (dispatched_again (or_else now s.clock) run)
  unfolding resolve_approval get_run get_task ◌>>=◌
  approve-dispatching now s found task_found row is_dispatch undecided may unused =
      rw (found, task_found, row, undecided)
        (decide_or_expire-run (or_else now s.clock) s found is_dispatch may unused)
