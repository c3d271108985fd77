-- ===== src/Task/Comment.antt =====
-- `add_comment` of task_services.py.
pub mod Replay
use hermes_orchestrator.Prelude.{
  ℕ, Bool, true, false, ◌||◌, not, String, Option, none, some, List, [], ◌∷◌, ◌++◌, str_eq, ◌==◌,
  find,
}
use hermes_orchestrator.Models.Json.{Fields, end, field, uuid}
use hermes_orchestrator.Models.Rows.{TaskComment}
use hermes_orchestrator.Store.Exec.{
  Db, Exec, Code, error, pure, gets, modify, raise_if, uuid4, commit, ◌>>=◌, ◌>>◌,
}
use hermes_orchestrator.Task.Base.{append_audit, get_task}

unfoldable pub comment_by_key : String → Db → Option TaskComment
comment_by_key key d = find (λ c. str_eq c.idempotency_key key) d.task_comments

unfoldable pub replay_comment : ℕ → String → String → TaskComment → Exec (TaskComment × Bool)
replay_comment task_id actor_id body existing = do
  raise_if
      (not (existing.task_id == task_id)
        || not (str_eq existing.actor_id actor_id)
        || not (str_eq existing.body body))
      (error Code.idempotency_conflict)
  pure (existing, true)

unfoldable pub new_comment : ℕ → String → String → String → ℕ → TaskComment
new_comment task_id actor_id key body id = record {
  id = id;
  task_id = task_id;
  actor_id = actor_id;
  body = body;
  idempotency_key = key;
}

unfoldable pub insert_comment : ℕ → String → String → String → Exec (TaskComment × Bool)
unfolding new_comment get_task append_audit
insert_comment task_id actor_id key body = do
  get_task task_id
  id ← uuid4
  modify λ d. record d {
    task_comments = d.task_comments ++ new_comment task_id actor_id key body id ∷ [];
  }
  append_audit actor_id "task.commented" "task" task_id (field "comment_id" (uuid id) end)
  commit
  pure (new_comment task_id actor_id key body id, false)

unfoldable pub replay_or_comment :
    ℕ → String → String → String → Option TaskComment → Exec (TaskComment × Bool)
unfolding replay_comment insert_comment
replay_or_comment task_id actor_id key body none = insert_comment task_id actor_id key body
replay_or_comment task_id actor_id key body (some existing) =
    replay_comment task_id actor_id body existing

-- The comment, and whether the call was a replay.
unfoldable pub add_comment : ℕ → String → String → String → Exec (TaskComment × Bool)
unfolding replay_or_comment comment_by_key
add_comment task_id actor_id key body = do
  existing ← gets (comment_by_key key)
  replay_or_comment task_id actor_id key body existing
