-- ===== src/Task/Handoff/Settled.antt =====
-- How a task stands after a handoff, by its outcome.
use hermes_orchestrator.Prelude.{
  ℕ, ◌+◌, ◌≡◌, ◌≢◌, refl, ap, sym, ◌∙◌, if_true, if_false, inl, inr, true, false, String, Option,
  none, some, List, [], ◌∷◌, ◌++◌, arith, eq_iff, str_eq, or_else, Bool-cases,
}
use hermes_orchestrator.Models.Status.{TaskStatus, ApprovalStatus}
use hermes_orchestrator.Models.Rows.{Task, Approval}
use hermes_orchestrator.Models.Settings.{seconds}
use hermes_orchestrator.Store.Table
use hermes_orchestrator.Store.Exec.{Session, Exec, ok, Task-Keyed, ◌>>=◌}
use hermes_orchestrator.Store.Inversion.{raise_if-bind-ok}
use hermes_orchestrator.Usage.Circuit.{opt_str_eq}
use hermes_orchestrator.Task.Handoff.{
  completion_approval, open_review, request_completion, settle_as, settle_task,
}

-- A pending approval of the run's completion, which the actor asked for, and its row.
pub record AwaitsReview (run_id : ℕ) (actor_id : String) (o : Option Approval)
    (before after : List Approval) : Type 0 where
  pub approval : Approval
  pub given : o ≡ some approval
  pub of_run : approval.run_id ≡ run_id
  pub action : approval.action ≡ "completion"
  pub pending : approval.status ≡ ApprovalStatus.pending
  pub asked_by : approval.requested_by_actor_id ≡ actor_id
  pub added : after ≡ before ++ approval ∷ []

-- How the task stands after a handoff by the actor, the approval that is asked for, and the
-- approvals before and after it.
pub record Settled (task : Task) (actor_id : String) (run_id : ℕ) (outcome : String)
    (status : TaskStatus) (o : Option Approval) (before after : List Approval) : Type 0 where
  pub blocked : outcome ≡ "blocked" → (status ≡ TaskStatus.blocked) × (o ≡ none) × (after ≡ before)
  pub reviewed :
      outcome ≢ "blocked"
      → task.independent_review ≡ true
      → (status ≡ TaskStatus.awaiting_approval)
        × (task.reviewer_actor_id ≢ some actor_id)
        × AwaitsReview run_id actor_id o before after
  pub closed :
      outcome ≢ "blocked"
      → task.independent_review ≡ false
      → (status ≡ TaskStatus.completed) × (o ≡ none) × (after ≡ before)

module _ (actor_id : String) where
  reviewer_differs : (o : Option String) → opt_str_eq o (some actor_id) ≡ false → o ≢ some actor_id
  reviewer_differs none h same = cc
  reviewer_differs (some x) h same = ground (arith, eq_iff x actor_id)

module _ (task : Task) (run_id : ℕ) (outcome : String) (comment_id : ℕ) (actor_id : String)
    (ttl : ℕ) (now : Option ℕ) (s s' : Session) (settled : String × Option Approval) where
  open_review-ok :
      open_review task run_id outcome comment_id actor_id ttl now s ≡ (ok settled, s')
      → Table.get task.id s.current.tasks ≡ some task
      → (Table.get task.id s'.current.tasks
          ≡ some (record task { status = TaskStatus.awaiting_approval }))
        × AwaitsReview run_id actor_id settled.1 s.current.approvals s'.current.approvals
  unfolding open_review ◌>>=◌
  open_review-ok h row =
      let waiting = record task { status = TaskStatus.awaiting_approval } in
      (
        ground (arith, Table.get-put_self waiting task s.current.tasks row),
        record {
          approval =
              completion_approval task run_id outcome comment_id actor_id
                (or_else now s.clock + seconds ttl) s.clock s.current.next_id;
          given = ground arith;
          of_run = refl;
          action = refl;
          pending = refl;
          asked_by = refl;
          added = ground arith;
        },
      )

  request_completion-ok :
      request_completion task run_id outcome comment_id actor_id ttl now s ≡ (ok settled, s')
      → Table.get task.id s.current.tasks ≡ some task
      → (task.reviewer_actor_id ≢ some actor_id)
        × (Table.get task.id s'.current.tasks
            ≡ some (record task { status = TaskStatus.awaiting_approval }))
        × AwaitsReview run_id actor_id settled.1 s.current.approvals s'.current.approvals
  unfolding request_completion
  request_completion-ok h row =
      let (other, h1) = raise_if-bind-ok _ _ _ s s' settled h in
      let (waits, approval) = open_review-ok h1 row in
      ((λ same. reviewer_differs actor_id task.reviewer_actor_id other same), waits, approval)

  settled_open :
      str_eq outcome "blocked" ≡ false
      → task.independent_review ≡ true
      → settle_task task run_id outcome comment_id actor_id ttl now s ≡ (ok settled, s')
      → request_completion task run_id outcome comment_id actor_id ttl now s ≡ (ok settled, s')
  unfolding settle_task
  settled_open other review h =
      ap (λ (m : Exec (String × Option Approval)). m s)
        (sym (if_false _ _ _ other ∙ if_true _ _ _ review))
      ∙ h

  settle_as-ok :
      (status : TaskStatus) (event : String)
      → settle_as task status event s ≡ (ok settled, s')
      → Table.get task.id s.current.tasks ≡ some task
      → (Table.get task.id s'.current.tasks ≡ some (record task { status = status }))
        × (settled.1 ≡ none)
        × (s'.current.approvals ≡ s.current.approvals)
  unfolding settle_as ◌>>=◌
  settle_as-ok status event h row = (
    ground (arith, Table.get-put_self (record task { status = status }) task s.current.tasks row),
    ground arith,
    ground arith,
  )

  settled_blocked :
      str_eq outcome "blocked" ≡ true
      → settle_task task run_id outcome comment_id actor_id ttl now s ≡ (ok settled, s')
      → settle_as task TaskStatus.blocked "task.blocked" s ≡ (ok settled, s')
  unfolding settle_task
  settled_blocked is_blocked h =
      ap (λ (m : Exec (String × Option Approval)). m s) (sym (if_true _ _ _ is_blocked)) ∙ h

  settled_closed :
      str_eq outcome "blocked" ≡ false
      → task.independent_review ≡ false
      → settle_task task run_id outcome comment_id actor_id ttl now s ≡ (ok settled, s')
      → settle_as task TaskStatus.completed "task.completed_handoff" s ≡ (ok settled, s')
  unfolding settle_task
  settled_closed other review h =
      ap (λ (m : Exec (String × Option Approval)). m s)
        (sym (if_false _ _ _ other ∙ if_false _ _ _ review))
      ∙ h

  pub settle-Settled :
      settle_task task run_id outcome comment_id actor_id ttl now s ≡ (ok settled, s')
      → Table.get task.id s.current.tasks ≡ some task
      → (t : Task) × (Table.get task.id s'.current.tasks ≡ some t)
        × Settled task actor_id run_id outcome t.status settled.1 s.current.approvals
            s'.current.approvals
  settle-Settled h row = elim (Bool-cases (str_eq outcome "blocked")) [
    | inl is_blocked ↦
        let (stands, none_asked, kept) =
          settle_as-ok TaskStatus.blocked "task.blocked" (settled_blocked is_blocked h) row in
        (
          record task { status = TaskStatus.blocked },
          stands,
          record {
            blocked = λ e. (refl, none_asked, kept);
            reviewed = λ o r. absurd (o (ground (arith, eq_iff outcome "blocked")));
            closed = λ o r. absurd (o (ground (arith, eq_iff outcome "blocked")));
          },
        )
    | inr other ↦ elim (Bool-cases task.independent_review) [
      | inl review ↦
          let (reviewer, waits, approval) =
            request_completion-ok (settled_open other review h) row in
          (
            record task { status = TaskStatus.awaiting_approval },
            waits,
            record {
              blocked = λ e. absurd (ground (arith, eq_iff outcome "blocked"));
              reviewed = λ o r. (refl, reviewer, approval);
              closed = λ o r. cc;
            },
          )
      | inr no_review ↦
          let (stands, none_asked, kept) =
            settle_as-ok TaskStatus.completed "task.completed_handoff"
              (settled_closed other no_review h) row in
          (
            record task { status = TaskStatus.completed },
            stands,
            record {
              blocked = λ e. absurd (ground (arith, eq_iff outcome "blocked"));
              reviewed = λ o r. cc;
              closed = λ o r. (refl, none_asked, kept);
            },
          )
    ]
  ]
