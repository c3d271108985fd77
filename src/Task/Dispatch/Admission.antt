-- ===== src/Task/Dispatch/Admission.antt =====
-- What a dispatch that goes through has passed, and the run that it makes.
use hermes_orchestrator.Prelude.{
  ℕ, ◌+◌, ◌≤◌, ◌≡◌, ◌∙◌, ap, subst, Bool, true, false, ◌&&◌, String, Option, some, List, [], ◌∷◌,
  ◌++◌, arith, ◌==◌, ==_self, count, count-append, or_else,
}
use hermes_orchestrator.Models.Status.{is_active}
use hermes_orchestrator.Models.Rows.{Task, Run}
use hermes_orchestrator.Models.Settings.{Settings, TextLibrary}
use hermes_orchestrator.Store.Table
use hermes_orchestrator.Store.Exec.{
  Session, Exec, ok, Task-Keyed, Run-Keyed, not_found, ◌>>=◌, ◌>>◌,
}
use hermes_orchestrator.Store.Inversion.{bind-ok, or_raise-bind-ok, pair_of}
use hermes_orchestrator.Usage.Limits.{ControlLimits, resolve_limits}
use hermes_orchestrator.Usage.Circuit.{opt_str_eq}
use hermes_orchestrator.Usage.Controls.{enforce_dispatch_controls, active_runs}
use hermes_orchestrator.Usage.Controls.Budgets.{enforce-Admits}
use hermes_orchestrator.Task.Base.{lifecycle_error}
use hermes_orchestrator.Task.Create.{unmet_dependencies}
use hermes_orchestrator.Task.Dispatch.{
  DispatchCommand, admits_dispatch, active_runs_of, new_run, check_task, control_dispatch,
  insert_run, dispatch_new, dispatch_task, dispatch_fields, max_attempt,
}

-- One more active run of the task.
count_added :
    (task_id : ℕ) (r : Run) (rs : List Run)
    → r.task_id ≡ task_id
    → is_active r.status ≡ true
    → (count (λ x. x.task_id == task_id && is_active x.status) (rs ++ r ∷ [])
        ≡ count (λ x. x.task_id == task_id && is_active x.status) rs + 1)
      × (count (λ x. is_active x.status) (rs ++ r ∷ []) ≡ count (λ x. is_active x.status) rs + 1)
count_added task_id r rs own live = (
  rw (count-append (λ x. x.task_id == task_id && is_active x.status) rs (r ∷ []), live)
      (ground (arith, own, ==_self task_id)),
  rw (count-append (λ x. is_active x.status) rs (r ∷ []), live) (omega arith),
)

-- The guards on the task let a dispatch pass only if it may, and then they have changed nothing.
pub record Admitted (task : Task) (p : DispatchCommand) (s : Session) : Type 0 where
  pub status : admits_dispatch task.status ≡ true
  pub reviewed :
      (task.independent_review && opt_str_eq task.reviewer_actor_id (some p.worker_actor_id))
      ≡ false
  pub met : unmet_dependencies s.current task ≡ []
  pub idle : active_runs_of task.id s.current ≡ 0

check_task-Admitted :
    (task : Task) (p : DispatchCommand) (s s' : Session) (u : Unit)
    → check_task task p s ≡ (ok u, s')
    → Admitted task p s × (s' ≡ s)
unfolding check_task ◌>>=◌
check_task-Admitted task p s s' u h = (
  record {
    status = ground arith;
    reviewed = ground arith;
    met = ground arith;
    idle = ground arith;
  },
  ground arith,
)

-- What a dispatch does to the numbers of active runs.
pub record Counted (settings : Settings) (task_id : ℕ) (p : DispatchCommand) (s s' : Session)
    (task : Task) : Type 0 where
  pub found : Table.get task_id s.current.tasks ≡ some task
  pub one : active_runs_of task_id s'.committed ≡ 1
  pub more : active_runs s'.committed ≡ active_runs s.current + 1
  pub within :
      active_runs s'.committed
      ≤ (resolve_limits s.current.budgets task p.worker_actor_id p.requested_profile_id
          settings).max_concurrent_runs

module _ (settings : Settings) (task_id : ℕ) (actor_id key dispatch_hash : String)
    (p : DispatchCommand) (now : ℕ) where
  control_dispatch-ok :
      (task : Task) (s s' : Session) (limits : ControlLimits)
      → control_dispatch settings task actor_id p now s ≡ (ok limits, s')
      → enforce_dispatch_controls task p.worker_actor_id p.requested_profile_id actor_id settings
          (some now)
          s
        ≡ (ok limits, s')
  unfolding control_dispatch
  control_dispatch-ok task s s' limits h = ground arith

  -- The guards that a dispatch of that task passed, up to the insertion of the run.
  record Passed (s s' : Session) (r : Run) (replayed : Bool) (task : Task) : Type 0 where
    found : Table.get task_id s.current.tasks ≡ some task
    admitted : Admitted task p s
    limits : ControlLimits
    middle : Session
    controlled : control_dispatch settings task actor_id p now s ≡ (ok limits, middle)
    inserted : insert_run task p actor_id key dispatch_hash now middle ≡ (ok (r, replayed), s')

  abbrev inserting : Task → Exec (Run × Bool)
  inserting task = insert_run task p actor_id key dispatch_hash now

  abbrev controlling : Task → Exec (Run × Bool)
  controlling task = control_dispatch settings task actor_id p now >> inserting task

  passed :
      (s s' : Session) (r : Run) (replayed : Bool)
      → dispatch_new settings task_id actor_id key dispatch_hash p now s ≡ (ok (r, replayed), s')
      → (task : Task) × Passed s s' r replayed task
  unfolding dispatch_new ◌>>=◌
  passed s s' r replayed h =
      let (task, found, h1) =
        or_raise-bind-ok (Table.get task_id s.current.tasks) (lifecycle_error not_found 404)
          (λ (t : Task). check_task t p >> controlling t) s s' (r, replayed) h in
      let (u, checked, h2) =
        bind-ok (check_task task p) (λ _. controlling task) s s' (r, replayed) h1 in
      let s1 = (check_task task p s).1 in
      let (admitted, same) =
        check_task-Admitted task p s s1 u (pair_of (check_task task p s) (ok u) checked) in
      let (limits, controlled, h3) =
        bind-ok (control_dispatch settings task actor_id p now) (λ _. inserting task) s1 s'
          (r, replayed) h2 in
      (
        task,
        record {
          found = found;
          admitted = admitted;
          limits = limits;
          middle = (control_dispatch settings task actor_id p now s).1;
          controlled = pair_of (control_dispatch settings task actor_id p now s) (ok limits) (
              subst (λ x. (control_dispatch settings task actor_id p now x).0 ≡ ok limits) same
                controlled);
          inserted =
              subst
                (λ x.
                  inserting task (control_dispatch settings task actor_id p now x).1
                  ≡ (ok (r, replayed), s'))
                same h3;
        },
      )

  -- The row that the dispatch adds.
  abbrev added : Task → Session → Run
  added task s =
      new_run task p key dispatch_hash s.current.next_id (max_attempt task.id s.current.runs + 1)
        now s.clock

  insertion :
      (task : Task) (s s' : Session) (r : Run) (replayed : Bool)
      → insert_run task p actor_id key dispatch_hash now s ≡ (ok (r, replayed), s')
      → (s'.committed ≡ s'.current) × (s'.current.runs ≡ s.current.runs ++ added task s ∷ [])
  unfolding insert_run ◌>>=◌
  insertion task s s' r replayed h = ground arith

  added_counts :
      (task : Task) (s : Session)
      → (is_active (added task s).status ≡ true) × ((added task s).task_id ≡ task.id)
  unfolding new_run
  added_counts task s = ground arith

  counted :
      (s s' : Session) (r : Run) (replayed : Bool) (task : Task)
      → Passed s s' r replayed task
      → Counted settings task_id p s s' task
  counted s s' r replayed task h =
      let s1 = h.middle in
      let (limits, admits, frame, _) =
        enforce-Admits task p.worker_actor_id p.requested_profile_id actor_id settings (some now) s
          s1 h.limits (control_dispatch-ok task s s1 h.limits h.controlled) in
      let (stored, runs) = insertion task s1 s' r replayed h.inserted in
      let id : task.id ≡ task_id = Table.get-key task_id s.current.tasks task h.found in
      let (live, own) = added_counts task s1 in
      let final : s'.committed.runs ≡ s.current.runs ++ added task s1 ∷ [] =
        ap (λ d. d.runs) stored ∙ runs ∙ ap (λ d. d.runs ++ added task s1 ∷ []) frame in
      let (one, more) = count_added task_id (added task s1) s.current.runs (own ∙ id) live in
      let grew : active_runs s'.committed ≡ active_runs s.current + 1 =
        ap (count (λ r. is_active r.status)) final ∙ more in
      record {
        found = h.found;
        one =
            ap (count (λ r. r.task_id == task_id && is_active r.status)) final
            ∙ one
            ∙ ap (λ n. n + 1) (subst (λ i. active_runs_of i s.current ≡ 0) id h.admitted.idle);
        more = grew;
        within =
            subst (λ l. active_runs s'.committed ≤ l.max_concurrent_runs) limits
              (omega (arith, grew, admits.concurrency));
      }

-- A call that is no replay has gone through `dispatch_new`.
not_replayed :
    (lib : TextLibrary) (settings : Settings) (task_id : ℕ) (actor_id key : String)
    (p : DispatchCommand) (now : Option ℕ) (s s' : Session) (r : Run)
    → dispatch_task lib settings task_id actor_id key p now s ≡ (ok (r, false), s')
    → dispatch_new settings task_id actor_id key
        (lib.digest (dispatch_fields p))
        p
        (or_else now s.clock)
        s
      ≡ (ok (r, false), s')
unfolding dispatch_task ◌>>=◌
not_replayed lib settings task_id actor_id key p now s s' r h = ground (arith, h)

-- A dispatch that is no replay finds its task idle and stores one more active run: the task then
-- has exactly one active run, and the active runs of the account number no more than the
-- concurrency limit that the settings, the budgets and the task's own budget resolve to.
pub dispatch-Counted :
    (lib : TextLibrary) (settings : Settings) (task_id : ℕ) (actor_id key : String)
    (p : DispatchCommand) (now : Option ℕ) (s s' : Session) (r : Run)
    → dispatch_task lib settings task_id actor_id key p now s ≡ (ok (r, false), s')
    → (task : Task) × Counted settings task_id p s s' task
dispatch-Counted lib settings task_id actor_id key p now s s' r h =
    let t = or_else now s.clock in
    let hash = lib.digest (dispatch_fields p) in
    let (task, k) =
      passed settings task_id actor_id key hash p t s s' r false
        (not_replayed lib settings task_id actor_id key p now s s' r h) in
    (task, counted settings task_id actor_id key hash p t s s' r false task k)

-- A dispatch that is no replay has found a task that was pending, blocked, failed or timed out,
-- with all its dependencies met and no active run, and its worker is not the reviewer of a task
-- that wants an independent review.
pub dispatch-Admitted :
    (lib : TextLibrary) (settings : Settings) (task_id : ℕ) (actor_id key : String)
    (p : DispatchCommand) (now : Option ℕ) (s s' : Session) (r : Run)
    → dispatch_task lib settings task_id actor_id key p now s ≡ (ok (r, false), s')
    → (task : Task) × (Table.get task_id s.current.tasks ≡ some task) × Admitted task p s
dispatch-Admitted lib settings task_id actor_id key p now s s' r h =
    let (task, k) =
      passed settings task_id actor_id key (lib.digest (dispatch_fields p)) p (or_else now s.clock)
        s s' r false (not_replayed lib settings task_id actor_id key p now s s' r h) in
    (task, k.found, k.admitted)
