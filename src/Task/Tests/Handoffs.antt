-- ===== src/Task/Tests/Handoffs.antt =====
-- A handoff at a concrete state.
use hermes_orchestrator.Prelude.{refl, true, none, [], ◌∷◌}
use hermes_orchestrator.Models.Json.{Fields, end, field, text, get, as_text}
use hermes_orchestrator.Models.Rows.{TaskComment}
use hermes_orchestrator.Models.Status.{TaskStatus, RunStatus}
use hermes_orchestrator.Store.Table
use hermes_orchestrator.Store.Exec.{Session, Result, ◌>>=◌}
use hermes_orchestrator.Fixtures.{library, task_in, run_in, db_with, session_of, result_or}
use hermes_orchestrator.Task.Comment.{comment_by_key}
use hermes_orchestrator.Task.Handoff.{
  TaskHandoffResult, handoff_task, replay_or_handoff, handoff_new, deliver, settle_task,
  request_completion, open_review, finish_handoff, running_run, last_attempt, later_attempt,
}
use hermes_orchestrator.Task.Handoff.Delivered.{Delivered, handoff-Delivered}

abbrev report : Fields
report = field "outcome" (text "completed") end

abbrev working : Session
working =
    session_of (db_with (task_in TaskStatus.dispatched ∷ []) (run_in RunStatus.running ∷ []) [])

abbrev handed : Result TaskHandoffResult × Session
handed = handoff_task library 1 "wanda" "handoff-key" report 86400 none working

abbrev no_comment : TaskComment
no_comment = record { id = 0; task_id = 0; actor_id = ""; body = ""; idempotency_key = "" }

abbrev no_handoff : TaskHandoffResult
no_handoff = record {
  task = task_in TaskStatus.dispatched;
  run = run_in RunStatus.running;
  comment = no_comment;
  approval = none;
  handoff = end;
  replayed = true;
}

handoff-Delivered_example :
    Delivered 1 "wanda" report working.current handed.1.committed (result_or handed.0 no_handoff)
unfolding handoff_task replay_or_handoff handoff_new deliver settle_task request_completion
    open_review finish_handoff running_run last_attempt later_attempt comment_by_key get as_text
    Table.get Table.put ◌>>=◌
handoff-Delivered_example =
    handoff-Delivered library 1 "wanda" "handoff-key" report 86400 none working handed.1
      (result_or handed.0 no_handoff) refl refl
