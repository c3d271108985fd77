-- ===== src/Task/Transition/Writes.antt =====
-- The writes of a transition, when they return and when they raise (`transition_run`).
use hermes_orchestrator.Prelude.{
  ℕ, ◌≡◌, refl, ◌∙◌, sym, ap, subst, inl, inr, String, Option, none, some, [], ◌∷◌, ◌++◌, arith,
  Option-cases,
}
use hermes_orchestrator.Models.Status.{RunStatus}
use hermes_orchestrator.Models.Rows.{Task, Run}
use hermes_orchestrator.Models.Settings.{Settings, TextLibrary}
use hermes_orchestrator.Store.Table
use hermes_orchestrator.Store.Exec.{Session, Exception, ok, err, Code, Run-Keyed, Task-Keyed, ◌>>=◌}
use hermes_orchestrator.Store.Keeps.{
  LeavesLifecycle, LeavesLifecycle-bind, LeavesLifecycle-pure, LeavesLifecycle-when,
}
use hermes_orchestrator.Usage.Circuit.Breaking.{record_run_outcome-LeavesLifecycle}
use hermes_orchestrator.Usage.Ledger.Once.{ingest-LeavesLifecycle}
use hermes_orchestrator.Task.Base.{get_run, get_task, lifecycle_error}
use hermes_orchestrator.Task.Transition.{
  move_event, account_outcome, finish_move, store_move, follow_run, next_task_status, handoff_of,
  completion_pending,
}

account_outcome-LeavesLifecycle :
    (lib : TextLibrary) (settings : Settings) (actor_id : String) (r : Run) (now : ℕ)
    → LeavesLifecycle (account_outcome lib settings actor_id r now)
unfolding account_outcome
account_outcome-LeavesLifecycle lib settings actor_id r now =
    search
      (
        LeavesLifecycle-bind, LeavesLifecycle-pure, LeavesLifecycle-when,
        record_run_outcome-LeavesLifecycle, ingest-LeavesLifecycle,
      )
      depth 14

module _ (lib : TextLibrary) (settings : Settings) (actor_id : String) (moved : Run)
    (run_id now : ℕ) where
  finish_move-ok :
      (s s' : Session) (r' : Run)
      → finish_move lib settings actor_id moved run_id now s ≡ (ok r', s')
      → (Table.get run_id s.current.runs ≡ some r')
        × (s'.committed.runs ≡ s.current.runs)
        × (s'.committed.tasks ≡ s.current.tasks)
  unfolding finish_move get_run ◌>>=◌
  finish_move-ok s s' r' h =
      let l = account_outcome-LeavesLifecycle lib settings actor_id moved now in
      ground (arith, l.runs s, l.tasks s)

  finish_move-err :
      (s s' : Session) (r : Run) (e : Exception)
      → Table.get run_id s.current.runs ≡ some r
      → finish_move lib settings actor_id moved run_id now s ≡ (err e, s')
      → s'.committed ≡ s.committed
  unfolding finish_move get_run ◌>>=◌
  finish_move-err s s' r e found h =
      let l = account_outcome-LeavesLifecycle lib settings actor_id moved now in
      ground (arith, l.runs s, l.committed s)

module _ (lib : TextLibrary) (settings : Settings) (status : RunStatus) (actor_id : String)
    (code : Option String) (moved : Run) (now : ℕ) where
  -- The task as it is written.
  abbrev followed : Session → Task → Task
  followed s t = record t {
    status = next_task_status status (handoff_of moved) (completion_pending s.current moved.id);
  }

  -- The session before the accounts.
  abbrev written : Session → Task → Session
  written s t = record s {
    current = record s.current {
      runs = Table.put moved s.current.runs;
      tasks = Table.put (followed s t) s.current.tasks;
      audit_events = s.current.audit_events ++ (move_event status actor_id code moved.id t.id) ∷ [];
    };
  }

  store_move-found :
      (s : Session) (t : Task)
      → Table.get moved.task_id s.current.tasks ≡ some t
      → store_move lib settings status actor_id code moved moved.id now s
        ≡ finish_move lib settings actor_id moved moved.id now (written s t)
  unfolding store_move follow_run get_task completion_pending ◌>>=◌
  store_move-found s t found = rw found

  store_move-missing :
      (s : Session)
      → Table.get moved.task_id s.current.tasks ≡ none
      → store_move lib settings status actor_id code moved moved.id now s ≡ (
        err (lifecycle_error Code.not_found 404),
        record s { current = record s.current { runs = Table.put moved s.current.runs } },
      )
  unfolding store_move follow_run get_task ◌>>=◌
  store_move-missing s missing = rw missing

module _ (lib : TextLibrary) (settings : Settings) (status : RunStatus) (actor_id : String)
    (code : Option String) (moved : Run) (now : ℕ) where
  pub store_move-err :
      (s s' : Session) (r : Run) (e : Exception)
      → Table.get moved.id s.current.runs ≡ some r
      → store_move lib settings status actor_id code moved moved.id now s ≡ (err e, s')
      → s'.committed ≡ s.committed
  store_move-err s s' r e found h = elim (Option-cases (Table.get moved.task_id s.current.tasks)) [
    | inl missing ↦
        ap (λ x. x.1.committed)
          (sym h ∙ store_move-missing lib settings status actor_id code moved now s missing)
    | inr (t, task_found) ↦
        finish_move-err lib settings actor_id moved moved.id now
          (written lib settings status actor_id code moved now s t) s' moved e
          (Table.get-put_self moved r s.current.runs found)
          (sym (store_move-found lib settings status actor_id code moved now s t task_found) ∙ h)
  ]

  pub store_move-ok :
      (s s' : Session) (r r' : Run)
      → Table.get moved.id s.current.runs ≡ some r
      → store_move lib settings status actor_id code moved moved.id now s ≡ (ok r', s')
      → (r' ≡ moved)
        × (Table.get moved.id s'.committed.runs ≡ some moved)
        × (t : Task) × (Table.get moved.task_id s'.committed.tasks ≡ some t)
        × (t.status
            ≡ next_task_status status (handoff_of moved) (completion_pending s.current moved.id))
  store_move-ok s s' r r' found h = elim (Option-cases (Table.get moved.task_id s.current.tasks)) [
    | inl missing ↦ absurd (
        ground
          (arith, sym h ∙ store_move-missing lib settings status actor_id code moved now s missing))
    | inr (t, task_found) ↦
        let (run_found, runs, tasks) =
          finish_move-ok lib settings actor_id moved moved.id now
            (written lib settings status actor_id code moved now s t) s' r'
            (sym (store_move-found lib settings status actor_id code moved now s t task_found)
              ∙ h) in
        let updated = Table.get-put_self moved r s.current.runs found in
        let t' = followed lib settings status actor_id code moved now s t in
        let key = Table.get-key moved.task_id s.current.tasks t task_found in
        (
          ground (arith, updated, run_found),
          rw runs updated,
          t',
          rw tasks (
              subst (λ i. Table.get i (Table.put t' s.current.tasks) ≡ some t') key
                (Table.get-put_self t' t s.current.tasks
                  (subst (λ i. Table.get i s.current.tasks ≡ some t) (sym key) task_found))),
          refl,
        )
  ]
