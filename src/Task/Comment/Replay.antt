-- ===== src/Task/Comment/Replay.antt =====
-- Idempotence of `add_comment`: one key makes one comment.
use hermes_orchestrator.Prelude.{ℕ, ◌≡◌, Bool, true, String, arith, eq_iff, ==_self, find-append}
use hermes_orchestrator.Models.Rows.{TaskComment}
use hermes_orchestrator.Store.Exec.{Session, ok, ◌>>=◌}
use hermes_orchestrator.Task.Comment.{add_comment}

module _ (task_id : ℕ) (actor_id key body : String) where
  -- Once a comment has been added under a key, the same actor's same comment on the same task under
  -- that key returns that comment, says that it is a replay, and changes nothing.
  pub comment_again :
      (s s' : Session) (c : TaskComment) (replayed : Bool)
      → add_comment task_id actor_id key body s ≡ (ok (c, replayed), s')
      → add_comment task_id actor_id key body s' ≡ (ok (c, true), s')
  unfolding add_comment ◌>>=◌
  comment_again s s' c replayed h =
      grind
        (arith, find-append, eq_iff key key, eq_iff body body, eq_iff actor_id actor_id, ==_self)
