-- ===== src/Task/Create/Replay.antt =====
-- Idempotence of `create_task`: one key makes one task.
use hermes_orchestrator.Prelude.{◌≡◌, Bool, true, String, arith, eq_iff, find-append}
use hermes_orchestrator.Models.Rows.{Task}
use hermes_orchestrator.Models.Settings.{TextLibrary}
use hermes_orchestrator.Store.Exec.{Session, ok, ◌>>=◌}
use hermes_orchestrator.Task.Create.{TaskCreate, create_task}

module _ (lib : TextLibrary) (actor_id key : String) (p : TaskCreate) where
  -- Once a task has been created under a key, the same actor's same request under that key returns
  -- the same task, says that it is a replay, and changes nothing.
  pub create_again :
      (s s' : Session) (t : Task) (replayed : Bool)
      → create_task lib actor_id key p s ≡ (ok (t, replayed), s')
      → create_task lib actor_id key p s' ≡ (ok (t, true), s')
  unfolding create_task ◌>>=◌
  create_again s s' t replayed h = grind (
    arith,
    find-append,
    eq_iff key key,
    eq_iff (lib.digest _) (lib.digest _),
    eq_iff actor_id actor_id,
  )
