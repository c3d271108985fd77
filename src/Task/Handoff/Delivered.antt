-- ===== src/Task/Handoff/Delivered.antt =====
-- What a new handoff has passed, and how the task stands after it.
use hermes_orchestrator.Prelude.{
  ℕ, ◌++◌, [], ◌∷◌, ◌≡◌, refl, ap, subst, sym, ◌⊎◌, inl, inr, true, false, String, Option, none,
  some, List, arith, eq_iff, str_eq, or_else, Bool-cases, not,
}
use hermes_orchestrator.Models.Json.{Fields, get, as_text}
use hermes_orchestrator.Models.Status.{RunStatus}
use hermes_orchestrator.Models.Rows.{Task, Run, Approval, TaskComment}
use hermes_orchestrator.Models.Settings.{TextLibrary}
use hermes_orchestrator.Store.Table
use hermes_orchestrator.Store.Exec.{Db, Session, Exec, add_row, save_run, ok, Task-Keyed, ◌>>=◌}
use hermes_orchestrator.Store.Inversion.{
  gets-bind-ok, pair_of, bind-ok, or_raise-bind-ok, raise_if-bind-ok,
}
use hermes_orchestrator.Task.Base.{get_task}
use hermes_orchestrator.Task.Terminal.Handoffs.{running_run-running}
use hermes_orchestrator.Task.Comment.{comment_by_key}
use hermes_orchestrator.Task.Handoff.{
  TaskHandoffResult, running_run, is_outcome, finish_handoff, deliver, handoff_new, replay_handoff,
  replay_or_handoff, handoff_task,
}
use hermes_orchestrator.Task.Handoff.Settled.{Settled, settle-Settled}

finish_handoff-ok :
    (task : Task) (run : Run) (actor_id : String) (comment : TaskComment) (persisted : Fields)
    (outcome : String) (settled : String × Option Approval) (s s' : Session) (t : Task)
    (result : TaskHandoffResult)
    → finish_handoff task run actor_id comment persisted outcome settled s ≡ (ok result, s')
    → Table.get task.id s.current.tasks ≡ some t
    → (result.task ≡ t)
      × (result.approval ≡ settled.1)
      × (Table.get task.id s'.committed.tasks ≡ some t)
      × (s'.committed.approvals ≡ s.current.approvals)
unfolding finish_handoff ◌>>=◌
finish_handoff-ok task run actor_id comment persisted outcome settled s s' t result h row =
    (ground arith, ground arith, ground arith, ground arith)

-- A new handoff: whose it is, and how the task stands after it.
pub record Delivered (task_id : ℕ) (actor_id : String) (given : Fields) (d d' : Db)
    (result : TaskHandoffResult) : Type 0 where
  pub task : Task
  pub before : Table.get task_id d.tasks ≡ some task
  pub run : Run
  pub active : running_run task_id d ≡ some run
  pub running : run.status ≡ RunStatus.running
  pub own : run.worker_actor_id ≡ actor_id
  pub outcome : String
  pub named : as_text (get "outcome" given) ≡ some outcome
  pub known : (outcome ≡ "blocked") ⊎ (outcome ≡ "completed")
  pub settled :
      Settled task actor_id run.id outcome result.task.status result.approval d.approvals
        d'.approvals
  pub stored : Table.get task_id d'.tasks ≡ some result.task

get_task-bind-ok :
    {B : Type 0} (id : ℕ) (f : Task → Exec B) (s s' : Session) (b : B)
    → (get_task id >>= f) s ≡ (ok b, s')
    → (t : Task) × (Table.get id s.current.tasks ≡ some t) × (f t s ≡ (ok b, s'))
unfolding get_task ◌>>=◌
get_task-bind-ok id f s s' b h = or_raise-bind-ok (Table.get id s.current.tasks) _ f s s' b h

same_actor : (a b : String) → not (str_eq a b) ≡ false → a ≡ b
same_actor a b h = ground (arith, eq_iff a b)

outcome_known :
    (o : Option String)
    → not (is_outcome o) ≡ false
    → (outcome : String) × (o ≡ some outcome) × ((outcome ≡ "blocked") ⊎ (outcome ≡ "completed"))
outcome_known none h = cc
outcome_known (some outcome) h = (
  outcome,
  refl,
  elim (Bool-cases (str_eq outcome "blocked")) [
    | inl is_blocked ↦ inl (ground (arith, eq_iff outcome "blocked"))
    | inr other ↦ inr (
        ground (
          arith,
          eq_iff outcome "completed",
          eq_iff "completed" outcome,
          eq_iff "blocked" outcome,
          eq_iff outcome "blocked",
        ))
  ],
)

Settled-along :
    (task : Task) (actor_id : String) (run_id : ℕ) (outcome : String) {t t' : Task}
    {o o' : Option Approval} {before before' after after' : List Approval}
    → t ≡ t'
    → o ≡ o'
    → before ≡ before'
    → after ≡ after'
    → Settled task actor_id run_id outcome t.status o before after
    → Settled task actor_id run_id outcome t'.status o' before' after'
Settled-along task actor_id run_id outcome p q b a =
    subst (λ (x : Type 0). x)
      (λ i. Settled task actor_id run_id outcome (p i).status (q i) (b i) (a i))

module _ (lib : TextLibrary) (actor_id key : String) (given : Fields) (ttl : ℕ) (now : Option ℕ)
    (s s' : Session) (result : TaskHandoffResult) where
  abbrev started : Session → (ℕ → TaskComment) → Run → Session
  started z c r =
      ((save_run r)
        ((add_row λ id d. record d { task_comments = d.task_comments ++ c id ∷ [] }) z).1).1

  -- The comment and the run leave the tasks and the approvals alone.
  untouched :
      (task : Task) (run : Run) (c : ℕ → TaskComment) (r : Run)
      → Table.get task.id s.current.tasks ≡ some task
      → (Table.get task.id (started s c r).current.tasks ≡ some task)
        × ((started s c r).current.approvals ≡ s.current.approvals)
  unfolding ◌>>=◌
  untouched task run c r row = (row, refl)

  deliver-ok :
      (task : Task) (run : Run) (outcome : String)
      → deliver lib task run actor_id key given outcome ttl now s ≡ (ok result, s')
      → Table.get task.id s.current.tasks ≡ some task
      → Settled task actor_id run.id outcome result.task.status result.approval s.current.approvals
          s'.committed.approvals
        × (Table.get task.id s'.committed.tasks ≡ some result.task)
  unfolding deliver
  deliver-ok task run outcome h row =
      let (id, a1, h1) = bind-ok _ _ s s' result h in
      let (u, a2, h2) = bind-ok _ _ _ s' result h1 in
      let (settled, a3, h3) = bind-ok _ _ _ s' result h2 in
      let (row1, kept) = untouched task run _ _ row in
      let (t, found, stands) =
        settle-Settled task run.id outcome id actor_id ttl now _ _ settled
          (pair_of _ (ok settled) a3) row1 in
      let (same, asked, stored, committed) =
        finish_handoff-ok task run actor_id _ _ outcome settled _ s' t result h3 found in
      (
        Settled-along task actor_id run.id outcome (sym same) (sym asked) kept (sym committed)
            stands,
        subst (λ (x : Task). Table.get task.id s'.committed.tasks ≡ some x) (sym same) stored,
      )

  handoff_new-Delivered :
      (task_id : ℕ)
      → handoff_new lib task_id actor_id key given ttl now s ≡ (ok result, s')
      → Delivered task_id actor_id given s.current s'.committed result
  unfolding handoff_new
  handoff_new-Delivered task_id h =
      let (task, before, h1) = get_task-bind-ok task_id _ s s' result h in
      let h2 = gets-bind-ok _ _ s s' result h1 in
      let (run, active, h3) = or_raise-bind-ok _ _ _ s s' result h2 in
      let (own, h4) = raise_if-bind-ok _ _ _ s s' result h3 in
      let (known, h5) = raise_if-bind-ok _ _ _ s s' result h4 in
      let same = Table.get-key task_id s.current.tasks task before in
      let (outcome, named, one) = outcome_known (as_text (get "outcome" given)) known in
      let (settled, stored) =
        deliver-ok task run _ h5
          (subst (λ (i : ℕ). Table.get i s.current.tasks ≡ some task) (sym same) before) in
      record {
        task = task;
        before = before;
        run = run;
        active = subst (λ (i : ℕ). running_run i s.current ≡ some run) same active;
        running = running_run-running task.id s.current run active;
        own = same_actor run.worker_actor_id actor_id own;
        outcome = outcome;
        named = named;
        known = one;
        settled =
            subst
              (λ (o : String).
                Settled task actor_id run.id o result.task.status result.approval
                  s.current.approvals s'.committed.approvals)
              (ap (λ (o : Option String). or_else o "") named) settled;
        stored = subst (λ (i : ℕ). Table.get i s'.committed.tasks ≡ some result.task) same stored;
      }

replay_handoff-replayed :
    (lib : TextLibrary) (task_id : ℕ) (actor_id : String) (given : Fields) (c : TaskComment)
    (s s' : Session) (result : TaskHandoffResult)
    → replay_handoff lib task_id actor_id given c s ≡ (ok result, s')
    → result.replayed ≡ true
unfolding replay_handoff ◌>>=◌
replay_handoff-replayed lib task_id actor_id given c s s' result h = ground arith

replay_or_handoff-Delivered :
    (lib : TextLibrary) (task_id : ℕ) (actor_id key : String) (given : Fields) (ttl : ℕ)
    (now : Option ℕ) (o : Option TaskComment) (s s' : Session) (result : TaskHandoffResult)
    → replay_or_handoff lib task_id actor_id key given ttl now o s ≡ (ok result, s')
    → result.replayed ≡ false
    → Delivered task_id actor_id given s.current s'.committed result
unfolding replay_or_handoff
replay_or_handoff-Delivered lib task_id actor_id key given ttl now none s s' result h fresh =
    handoff_new-Delivered lib actor_id key given ttl now s s' result task_id h
replay_or_handoff-Delivered lib task_id actor_id key given ttl now (some c) s s' result h fresh =
    absurd (cc (replay_handoff-replayed lib task_id actor_id given c s s' result h))

-- A handoff that returns, and is no replay, comes from the worker of the task's running run with the
-- outcome "blocked" or "completed". The committed task is then blocked; or it awaits approval, if it
-- wants an independent review: then the worker is not the reviewer, and the committed approvals are
-- those before with one more, a pending one of that run's completion that the worker asks for; or it
-- is completed, if it wants none. Where nothing is asked for, the committed approvals are those
-- before.
pub handoff-Delivered :
    (lib : TextLibrary) (task_id : ℕ) (actor_id key : String) (given : Fields) (ttl : ℕ)
    (now : Option ℕ) (s s' : Session) (result : TaskHandoffResult)
    → handoff_task lib task_id actor_id key given ttl now s ≡ (ok result, s')
    → result.replayed ≡ false
    → Delivered task_id actor_id given s.current s'.committed result
unfolding handoff_task ◌>>=◌
handoff-Delivered lib task_id actor_id key given ttl now s s' result h fresh =
    replay_or_handoff-Delivered lib task_id actor_id key given ttl now
      (comment_by_key key s.current) s s' result h fresh
