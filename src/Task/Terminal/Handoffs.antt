-- ===== src/Task/Terminal/Handoffs.antt =====
-- The invariant through `handoff_task`.
use hermes_orchestrator.Prelude.{
  ℕ, suc, ◌≡◌, Bool, true, String, Option, none, some, List, [], ◌∷◌, ◌++◌, arith, filter,
  Bool-cases, Option-cases, inl, inr,
}
use hermes_orchestrator.Models.Json.{Fields}
use hermes_orchestrator.Models.Status.{RunStatus, run_status_eq}
use hermes_orchestrator.Models.Rows.{Task, Run, TaskComment}
use hermes_orchestrator.Models.Settings.{TextLibrary}
use hermes_orchestrator.Store.Exec.{Db, add_row, Run-Keyed, Approval-Keyed}
use hermes_orchestrator.Store.Fresh.{more-FreshIds}
use hermes_orchestrator.Store.Keeps.{
  Keeps, Keeps-add_row, Keeps-if, Keeps-bind, Keeps-gets-bind, Keeps-or_raise-bind, keeps_rules,
}
use hermes_orchestrator.Task.Handoff.{
  replay_handoff, later_attempt, last_attempt, running_run, request_completion, settle_task,
  deliver, handoff_new, replay_or_handoff, handoff_task,
}
use hermes_orchestrator.Task.Terminal.{EndedRun, WellFormed}
use hermes_orchestrator.Task.Terminal.Steps.{
  save_run-WellFormed, save_task-WellFormed, add_audit-WellFormed, get_task-WellFormed,
  get_run-WellFormed,
}
use hermes_orchestrator.Task.Terminal.Additions.{add_approval-WellFormed}

ruleset steps = (
  keeps_rules, Keeps-if, save_task-WellFormed, add_audit-WellFormed, get_task-WellFormed,
  get_run-WellFormed, add_approval-WellFormed,
)

-- What a test lets through, the last attempt of it passes.
last_attempt-passes :
    (test : Run → Bool) (rs : List Run) (r : Run)
    → last_attempt (filter test rs) ≡ some r
    → test r ≡ true
unfolding last_attempt later_attempt
last_attempt-passes test [] r h = absurd (ground arith)
last_attempt-passes test (q ∷ rs) r h = elim (Bool-cases (test q)) [
  | inl passes ↦ elim (Option-cases (last_attempt (filter test rs))) [
    | inl empty ↦ ground arith
    | inr (x, found) ↦ ground (arith, last_attempt-passes test rs x found)
  ]
  | inr fails ↦ last_attempt-passes test rs r (ground arith)
]

running_status :
    (st : RunStatus) → run_status_eq st RunStatus.running ≡ true → st ≡ RunStatus.running
running_status st h = ground arith

running-EndedRun : (r : Run) → r.status ≡ RunStatus.running → EndedRun r
running-EndedRun r running ended = absurd (ground arith)

pub running_run-running :
    (task_id : ℕ) (d : Db) (r : Run) → running_run task_id d ≡ some r → r.status ≡ RunStatus.running
unfolding running_run
running_run-running task_id d r h =
    ground (arith, last_attempt-passes _ d.runs r h, running_status r.status)

add_comment_row-WellFormed :
    (c : ℕ → TaskComment)
    → Keeps WellFormed (add_row λ id d. record d { task_comments = d.task_comments ++ c id ∷ [] })
add_comment_row-WellFormed c = Keeps-add_row _ (λ d h. (
  h.0,
  (
    more-FreshIds d.next_id (suc d.next_id) d.runs (omega arith) h.1.0,
    more-FreshIds d.next_id (suc d.next_id) d.approvals (omega arith) h.1.1,
  ),
))

module _ (lib : TextLibrary) (actor_id key : String) (given : Fields) (ttl : ℕ)
    (now : Option ℕ) where
  settle-WellFormed :
      (task : Task) (run_id : ℕ) (outcome : String) (comment_id : ℕ)
      → Keeps WellFormed (settle_task task run_id outcome comment_id actor_id ttl now)
  unfolding settle_task request_completion
  settle-WellFormed task run_id outcome comment_id = search steps depth 20

  deliver-WellFormed :
      (task : Task) (run : Run) (outcome : String)
      → run.status ≡ RunStatus.running
      → Keeps WellFormed (deliver lib task run actor_id key given outcome ttl now)
  unfolding deliver
  deliver-WellFormed task run outcome running = Keeps-bind _ _ (add_comment_row-WellFormed _) (λ id.
      Keeps-bind _ _ (save_run-WellFormed _ (running-EndedRun _ running))
        (λ _. search (steps, settle-WellFormed) depth 20))

  handoff_new-WellFormed :
      (task_id : ℕ) → Keeps WellFormed (handoff_new lib task_id actor_id key given ttl now)
  unfolding handoff_new
  handoff_new-WellFormed task_id = Keeps-bind _ _ (get_task-WellFormed task_id) (λ task.
      Keeps-gets-bind _ _ (λ d h.
        Keeps-or_raise-bind _ _ _
          (λ run found. search (steps, deliver-WellFormed, running_run-running) depth 14)))

  replay_handoff-WellFormed :
      (task_id : ℕ) (c : TaskComment)
      → Keeps WellFormed (replay_handoff lib task_id actor_id given c)
  unfolding replay_handoff
  replay_handoff-WellFormed task_id c = search steps depth 20

  replay_or_handoff-WellFormed :
      (task_id : ℕ) (o : Option TaskComment)
      → Keeps WellFormed (replay_or_handoff lib task_id actor_id key given ttl now o)
  unfolding replay_or_handoff
  replay_or_handoff-WellFormed task_id (some c) = replay_handoff-WellFormed task_id c
  replay_or_handoff-WellFormed task_id none = handoff_new-WellFormed task_id

  pub handoff_task-WellFormed :
      (task_id : ℕ) → Keeps WellFormed (handoff_task lib task_id actor_id key given ttl now)
  unfolding handoff_task
  handoff_task-WellFormed task_id = search (steps, replay_or_handoff-WellFormed)
