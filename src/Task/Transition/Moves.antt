-- ===== src/Task/Transition/Moves.antt =====
-- What a transition of a run stores, and that a transition that is refused stores nothing.
use hermes_orchestrator.Prelude.{
  ℕ, ◌≡◌, refl, ◌∙◌, sym, ap, subst, inl, inr, true, false, String, Option, none, some, arith,
  or_else, Option-cases, Bool-cases,
}
use hermes_orchestrator.Models.Status.{RunStatus, is_terminal, run_status_in, run_transitions}
use hermes_orchestrator.Models.Rows.{Task, Run}
use hermes_orchestrator.Models.Settings.{Settings, TextLibrary}
use hermes_orchestrator.Store.Table
use hermes_orchestrator.Store.Exec.{
  Db, Session, Exception, ok, err, Code, error, Run-Keyed, Task-Keyed, ◌>>=◌,
}
use hermes_orchestrator.Task.Base.{get_run, lifecycle_error}
use hermes_orchestrator.Task.Transition.{
  store_move, moved_run, next_task_status, handoff_of, completion_pending, transition_run,
}
use hermes_orchestrator.Task.Transition.Effects.{
  RunMoved, TaskFollows, moved_run-RunMoved, next_task_status-TaskFollows,
}
use hermes_orchestrator.Task.Transition.Writes.{store_move-err, store_move-ok}

moved_run_ids :
    (status : RunStatus) (code summary : Option String) (now : ℕ) (r : Run)
    → ((moved_run status code summary now r).id ≡ r.id)
      × ((moved_run status code summary now r).task_id ≡ r.task_id)
unfolding moved_run
moved_run_ids status code summary now r = ground arith

terminal_moves :
    (st new_status : RunStatus)
    → is_terminal st ≡ true
    → run_status_in new_status (run_transitions st) ≡ false
terminal_moves st new_status ended = ground arith

-- What a transition that returned has stored.
pub record Moved (run_id : ℕ) (status : RunStatus) (code summary : Option String) (now : ℕ)
    (d d' : Db) (r' : Run) : Type 0 where
  pub before : Run
  pub found : Table.get run_id d.runs ≡ some before
  pub allowed : run_status_in status (run_transitions before.status) ≡ true
  pub moved : r' ≡ moved_run status code summary now before
  pub fields : RunMoved status code summary now before r'
  pub stored : Table.get before.id d'.runs ≡ some r'
  pub task : Task
  pub task_found : Table.get before.task_id d'.tasks ≡ some task
  pub task_status :
      task.status ≡ next_task_status status (handoff_of r') (completion_pending d before.id)
  pub follows : TaskFollows status (handoff_of r') (completion_pending d before.id) task.status

module _ (lib : TextLibrary) (settings : Settings) (run_id : ℕ) (status : RunStatus)
    (actor_id : String) (code summary : Option String) (now : Option ℕ) where
  abbrev moving : Session → Run → Run
  moving s r = moved_run status code summary (or_else now s.clock) r

  transition-found :
      (s : Session) (r : Run)
      → Table.get run_id s.current.runs ≡ some r
      → run_status_in status (run_transitions r.status) ≡ true
      → transition_run lib settings run_id status actor_id code summary now s
        ≡ store_move lib settings status actor_id code
            (moving s r)
            (moving s r).id
            (or_else now s.clock)
            s
  unfolding transition_run get_run ◌>>=◌
  transition-found s r found allowed =
      rw (found, allowed, (moved_run_ids status code summary (or_else now s.clock) r).0) refl

  transition-refused :
      (s : Session) (r : Run)
      → Table.get run_id s.current.runs ≡ some r
      → run_status_in status (run_transitions r.status) ≡ false
      → transition_run lib settings run_id status actor_id code summary now s
        ≡ (err (error Code.invalid_transition), s)
  unfolding transition_run get_run ◌>>=◌
  transition-refused s r found forbidden = rw (found, forbidden) refl

  transition-missing :
      (s : Session)
      → Table.get run_id s.current.runs ≡ none
      → transition_run lib settings run_id status actor_id code summary now s
        ≡ (err (lifecycle_error Code.not_found 404), s)
  unfolding transition_run get_run ◌>>=◌
  transition-missing s missing = rw missing refl

  -- The row of the run that moves.
  moving_row :
      (s : Session) (r : Run)
      → Table.get run_id s.current.runs ≡ some r
      → Table.get (moving s r).id s.current.runs ≡ some r
  moving_row s r found =
      subst (λ i. Table.get i s.current.runs ≡ some r)
        (sym (
          (moved_run_ids status code summary (or_else now s.clock) r).0
          ∙ Table.get-key run_id s.current.runs r found))
        found

  -- A transition that returns found the run in a status from which the new one may be reached, and
  -- returns the moved run: with the new status, the given error code and summary, its first start
  -- when it comes to be running, and its end and no lease owner when the status is terminal. That run
  -- is stored, and the stored row of its task has the status that follows: the run's own where the
  -- run has not completed or left no handoff, and otherwise blocked for the outcome "blocked",
  -- awaiting approval while a completion approval of the run is pending, and completed without one.
  pub transition-Moved :
      (s s' : Session) (r' : Run)
      → transition_run lib settings run_id status actor_id code summary now s ≡ (ok r', s')
      → Moved run_id status code summary (or_else now s.clock) s.current s'.committed r'
  transition-Moved s s' r' h = elim (Option-cases (Table.get run_id s.current.runs)) [
    | inl missing ↦ absurd (ground (arith, sym h ∙ transition-missing s missing))
    | inr (r, found) ↦ elim (Bool-cases (run_status_in status (run_transitions r.status))) [
      | inr forbidden ↦ absurd (ground (arith, sym h ∙ transition-refused s r found forbidden))
      | inl allowed ↦
          let ids = moved_run_ids status code summary (or_else now s.clock) r in
          let (same, stored, task, task_found, task_status) =
            store_move-ok lib settings status actor_id code (moving s r) (or_else now s.clock) s s'
              r r' (moving_row s r found) (sym (transition-found s r found allowed) ∙ h) in
          let follows = task_status ∙ (λ i.
            next_task_status status (handoff_of (sym same i))
              (completion_pending s.current (ids.0 i))) in
          record {
            before = r;
            found = found;
            allowed = allowed;
            moved = same;
            fields =
                subst (RunMoved status code summary (or_else now s.clock) r) (sym same)
                  (moved_run-RunMoved status code summary (or_else now s.clock) r);
            stored =
                subst (λ i. Table.get i s'.committed.runs ≡ some r') ids.0
                  (stored ∙ ap some (sym same));
            task = task;
            task_found = subst (λ i. Table.get i s'.committed.tasks ≡ some task) ids.1 task_found;
            task_status = follows;
            follows =
                subst (TaskFollows status (handoff_of r') (completion_pending s.current r.id))
                  (sym follows)
                  (next_task_status-TaskFollows status (handoff_of r')
                    (completion_pending s.current r.id));
          }
    ]
  ]

  -- A transition that raises, for whatever reason, leaves the stored state as it was.
  pub transition_error :
      (s s' : Session) (e : Exception)
      → transition_run lib settings run_id status actor_id code summary now s ≡ (err e, s')
      → s'.committed ≡ s.committed
  transition_error s s' e h = elim (Option-cases (Table.get run_id s.current.runs)) [
    | inl missing ↦ ap (λ x. x.1.committed) (sym h ∙ transition-missing s missing)
    | inr (r, found) ↦ elim (Bool-cases (run_status_in status (run_transitions r.status))) [
      | inr forbidden ↦ ap (λ x. x.1.committed) (sym h ∙ transition-refused s r found forbidden)
      | inl allowed ↦
          store_move-err lib settings status actor_id code (moving s r) (or_else now s.clock) s s' r
            e (moving_row s r found) (sym (transition-found s r found allowed) ∙ h)
    ]
  ]

  -- A transition of a run whose status is terminal is refused as `invalid_transition`, whatever the
  -- new status is, and leaves the session as it was.
  pub transition_terminal :
      (s : Session) (r : Run)
      → Table.get run_id s.current.runs ≡ some r
      → is_terminal r.status ≡ true
      → transition_run lib settings run_id status actor_id code summary now s
        ≡ (err (error Code.invalid_transition), s)
  transition_terminal s r found ended =
      transition-refused s r found (terminal_moves r.status status ended)
