-- ===== src/Task/Dispatch/Refusal.antt =====
-- What a dispatch that is refused leaves behind.
use hermes_orchestrator.Prelude.{
  ℕ, ◌≡◌, refl, inl, inr, sym, ◌∙◌, ap, subst, Bool, String, Option, none, some, arith, or_else,
}
use hermes_orchestrator.Models.Rows.{Task, Run}
use hermes_orchestrator.Models.Settings.{Settings, TextLibrary}
use hermes_orchestrator.Store.Table
use hermes_orchestrator.Store.Exec.{
  Db, Session, Exec, Exception, Result, ok, err, Task-Keyed, Run-Keyed, not_found, request,
  or_raise, ◌>>=◌, ◌>>◌,
}
use hermes_orchestrator.Store.Inversion.{bind-err, or_raise_state, pair_of}
use hermes_orchestrator.Usage.Controls.{enforce_dispatch_controls}
use hermes_orchestrator.Usage.Controls.Budgets.{enforce_refusal}
use hermes_orchestrator.Task.Base.{lifecycle_error}
use hermes_orchestrator.Task.Dispatch.{
  DispatchCommand, as_lifecycle, check_task, control_dispatch, insert_run, dispatch_new,
  dispatch_task, dispatch_fields, replay_or_dispatch, run_by_key,
}

-- No run and no approval was added or changed.
pub record SameRuns (d d' : Db) : Type 0 where
  pub runs : d'.runs ≡ d.runs
  pub approvals : d'.approvals ≡ d.approvals
  pub usage_ledger : d'.usage_ledger ≡ d.usage_ledger

-- Both states of the session have the runs of the database.
record Holds (d : Db) (s : Session) : Type 0 where
  current : SameRuns d s.current
  committed : SameRuns d s.committed

check_task-Holds :
    (task : Task) (p : DispatchCommand) (d : Db) (s : Session)
    → Holds d s
    → Holds d (check_task task p s).1
unfolding check_task ◌>>=◌
check_task-Holds task p d s h = ground arith

insert_run_returns :
    (task : Task) (p : DispatchCommand) (actor_id key dispatch_hash : String) (now : ℕ)
    (s s' : Session) (e : Exception)
    → ¬ (insert_run task p actor_id key dispatch_hash now s ≡ (err e, s'))
unfolding insert_run ◌>>=◌
insert_run_returns task p actor_id key dispatch_hash now s s' e h = grind (arith, Table.get-append)

as_lifecycle-err :
    {A : Type 0} (r : Result A) (e : Exception)
    → as_lifecycle r ≡ err e
    → (x : Exception) × (r ≡ err x)
unfolding as_lifecycle
as_lifecycle-err (ok a) e h = cc
as_lifecycle-err (err x) e h = (x, refl)

module _ (settings : Settings) (task_id : ℕ) (actor_id key dispatch_hash : String)
    (p : DispatchCommand) (now : ℕ) where
  refused :
      (task : Task) (s s' : Session) (e : Exception)
      → control_dispatch settings task actor_id p now s ≡ (err e, s')
      → (x : Exception) × (enforce_dispatch_controls task p.worker_actor_id p.requested_profile_id
            actor_id settings
            (some now)
            s
          ≡ (err x, s'))
  unfolding control_dispatch
  refused task s s' e h =
      let enforced =
        enforce_dispatch_controls task p.worker_actor_id p.requested_profile_id actor_id settings
          (some now) s in
      let (x, raised) = as_lifecycle-err enforced.0 e (ap (λ r. r.0) h) in
      (x, λ i. (raised i, ap (λ r. r.1) h i))

  refused-Holds :
      (task : Task) (d : Db) (s s' : Session) (e : Exception)
      → control_dispatch settings task actor_id p now s ≡ (err e, s')
      → Holds d s
      → Holds d s'
  refused-Holds task d s s' e h k =
      let (x, raised) = refused task s s' e h in
      let (stored, frame, _, _) =
        enforce_refusal task p.worker_actor_id p.requested_profile_id actor_id settings (some now) s
          s' x raised in
      let same : SameRuns d s'.current = record {
        runs = ap (λ b. b.runs) frame ∙ k.current.runs;
        approvals = ap (λ b. b.approvals) frame ∙ k.current.approvals;
        usage_ledger = ap (λ b. b.usage_ledger) frame ∙ k.current.usage_ledger;
      } in
      record { current = same; committed = subst (SameRuns d) (sym stored) same }

  abbrev inserting : Task → Exec (Run × Bool)
  inserting task = insert_run task p actor_id key dispatch_hash now

  abbrev controlling : Task → Exec (Run × Bool)
  controlling task = control_dispatch settings task actor_id p now >> inserting task

  controlling-Holds :
      (task : Task) (d : Db) (s s' : Session) (e : Exception)
      → controlling task s ≡ (err e, s')
      → Holds d s
      → Holds d s'
  controlling-Holds task d s s' e h k =
      elim (bind-err (control_dispatch settings task actor_id p now) (λ _. inserting task) s s' e
        h) [
          | inl raised ↦ refused-Holds task d s s' e raised k
          | inr (limits, through, later) ↦
              absurd (insert_run_returns task p actor_id key dispatch_hash now _ s' e later)
        ]

  checking-Holds :
      (task : Task) (d : Db) (s s' : Session) (e : Exception)
      → (check_task task p >> controlling task) s ≡ (err e, s')
      → Holds d s
      → Holds d s'
  checking-Holds task d s s' e h k =
      elim (bind-err (check_task task p) (λ _. controlling task) s s' e h) [
        | inl raised ↦ subst (Holds d) (ap (λ r. r.1) raised) (check_task-Holds task p d s k)
        | inr (u, through, later) ↦
            controlling-Holds task d (check_task task p s).1 s' e later
              (check_task-Holds task p d s k)
      ]

  dispatch_new-Holds :
      (d : Db) (s s' : Session) (e : Exception)
      → dispatch_new settings task_id actor_id key dispatch_hash p now s ≡ (err e, s')
      → Holds d s
      → Holds d s'
  unfolding dispatch_new ◌>>=◌
  dispatch_new-Holds d s s' e h k =
      let row = Table.get task_id s.current.tasks in
      let same = or_raise_state row (lifecycle_error not_found 404) s in
      elim (bind-err (or_raise row (lifecycle_error not_found 404))
        (λ (t : Task). check_task t p >> controlling t) s s' e h) [
          | inl missing ↦ subst (Holds d) (sym same ∙ ap (λ r. r.1) missing) k
          | inr (task, found, later) ↦
              checking-Holds task d (or_raise row (lifecycle_error not_found 404) s).1 s' e later
                (subst (Holds d) (sym same) k)
        ]

  replay_or_dispatch-Holds :
      (o : Option Run) (d : Db) (s s' : Session) (e : Exception)
      → replay_or_dispatch settings task_id actor_id key dispatch_hash p now o s ≡ (err e, s')
      → Holds d s
      → Holds d s'
  unfolding replay_or_dispatch ◌>>=◌
  replay_or_dispatch-Holds none d s s' e h k = dispatch_new-Holds d s s' e h k
  replay_or_dispatch-Holds (some existing) d s s' e h k = ground (arith, h, k)

-- A dispatch that is refused, for whatever reason, stores no new run and no new approval and
-- changes none, nor does it change the ledger.
pub dispatch_error :
    (lib : TextLibrary) (settings : Settings) (task_id : ℕ) (actor_id key : String)
    (p : DispatchCommand) (now : Option ℕ) (clock : ℕ) (d : Db) (e : Exception)
    → (request (dispatch_task lib settings task_id actor_id key p now) clock d).0 ≡ err e
    → SameRuns d (request (dispatch_task lib settings task_id actor_id key p now) clock d).1
unfolding dispatch_task ◌>>=◌ request
dispatch_error lib settings task_id actor_id key p now clock d e h =
    let s : Session = record { current = d; committed = d; clock = clock } in
    let t = or_else now clock in
    let hash = lib.digest (dispatch_fields p) in
    let done = replay_or_dispatch settings task_id actor_id key hash p t (run_by_key key d) s in
    let same : SameRuns d d = record { runs = refl; approvals = refl; usage_ledger = refl } in
    (replay_or_dispatch-Holds settings task_id actor_id key hash p t (run_by_key key d) d s done.1 e
      (pair_of done (err e) h) (record { current = same; committed = same })).committed
