-- ===== src/Task/Cancel/Cleared.antt =====
-- A cancellation leaves the stored task without a pending approval (`cancel_task`).
use hermes_orchestrator.Prelude.{
  ℕ, ◌≡◌, refl, ◌∙◌, sym, ap, subst, inl, inr, Bool, true, false, not, String, Option, none, some,
  List, [], ◌∷◌, arith, length, ltb, or_else, is_some, if_true, if_false, if◌then◌else◌,
  Option-cases, Bool-cases,
}
use hermes_orchestrator.Models.Rows.{Task, Run, Approval}
use hermes_orchestrator.Models.Settings.{Settings, TextLibrary}
use hermes_orchestrator.Store.Table
use hermes_orchestrator.Store.Table.{Distinct}
use hermes_orchestrator.Store.Listed.{Listed, put-Listed, none-Listed, all-Listed}
use hermes_orchestrator.Store.Exec.{
  Db, request, Session, Exec, ok, Approval-Keyed, Task-Keyed, ◌>>=◌, ◌>>◌, when, commit, pure,
  error, Code,
}
use hermes_orchestrator.Store.Keeps.{LeavesLifecycle-bind, LeavesLifecycle-pure}
use hermes_orchestrator.Store.Inversion.{
  pair_of, pure-ok, bind-ok, raise_if-bind-ok, bind-pure_state,
}
use hermes_orchestrator.Usage.Ledger.{ingest_run_usage}
use hermes_orchestrator.Usage.Ledger.Once.{ingest-LeavesLifecycle}
use hermes_orchestrator.Usage.Circuit.{opt_str_eq}
use hermes_orchestrator.Task.Base.{get_task}
use hermes_orchestrator.Task.Cancel.{
  is_pending_of, pending_approvals, rejected_by_cancel, reject_approval, reject_each,
  reject_pending, cancelled_run, cancel_run, cancel_again, close_task, finish_cancel, cancel_new,
  cancel_task,
}

module _ (lib : TextLibrary) (task_id : ℕ) (actor_id key reason : String) (now : ℕ) where
  -- The loop over rows that include all pending ones leaves none.
  reject_each-cleared :
      (rows : List Approval) (s : Session)
      → Distinct s.current.approvals
      → Listed (is_pending_of s.current.runs task_id) rows s.current.approvals
      → pending_approvals (reject_each lib task_id actor_id key reason now rows s).1.current task_id
        ≡ []
  unfolding reject_each pending_approvals reject_approval rejected_by_cancel ◌>>=◌
  reject_each-cleared [] s u l =
      none-Listed (is_pending_of s.current.runs task_id) s.current.approvals l
  reject_each-cleared (a ∷ rest) s u l =
      let a' = rejected_by_cancel lib task_id actor_id key reason now a in
      reject_each-cleared rest (reject_approval lib task_id actor_id key reason now a s).1
        (Table.Distinct-put a' s.current.approvals u)
        (put-Listed (is_pending_of s.current.runs task_id) a a' rest s.current.approvals refl refl u
          l)

  pending-Listed :
      (s : Session)
      → Listed
          (is_pending_of s.current.runs task_id)
          (pending_approvals s.current task_id)
          s.current.approvals
  unfolding pending_approvals
  pending-Listed s = all-Listed (is_pending_of s.current.runs task_id) s.current.approvals

  reject_pending-cleared :
      (s : Session)
      → Distinct s.current.approvals
      → pending_approvals (reject_pending lib task_id actor_id key reason now s).1.current task_id
        ≡ []
  unfolding reject_pending ◌>>=◌
  reject_pending-cleared s u =
      let rows = pending_approvals s.current task_id in
      subst (λ t. pending_approvals t.current task_id ≡ [])
        (sym (
          bind-pure_state (reject_each lib task_id actor_id key reason now rows) (λ _. length rows)
            s))
        (reject_each-cleared rows s u (pending-Listed s))

-- What is stored after a commit that is made only if the test holds.
stored_if :
    {A : Type 0} (b : Bool) (a x : A) (s s' : Session)
    → (when b commit >> pure a) s ≡ (ok x, s')
    → s'.committed ≡ (if b then s.current else s.committed)
unfolding ◌>>=◌
stored_if true a x s s' h = sym (ap (λ y. y.1.committed) h)
stored_if false a x s s' h = sym (ap (λ y. y.1.committed) h)

counted :
    {A : Type 0} (m : Exec A) (n k : ℕ) (s : Session) → ((m >>= λ _. pure n) s).0 ≡ ok k → n ≡ k
counted m n k s h =
    let (_, _, last) = bind-ok m (λ _. pure n) s _ k (pair_of _ (ok k) h) in
    sym (pure-ok n k _ _ last).0

no_rows : {A : Type 0} (rows : List A) → ltb 0 (length rows) ≡ false → rows ≡ []
no_rows [] h = refl
no_rows (x ∷ xs) h = absurd (ground arith)

module _ (lib : TextLibrary) (task_id : ℕ) (actor_id key reason : String) (now : ℕ) where
  reject_each-committed :
      (rows : List Approval) (s : Session)
      → (reject_each lib task_id actor_id key reason now rows s).1.committed ≡ s.committed
  unfolding reject_each reject_approval ◌>>=◌
  reject_each-committed [] s = refl
  reject_each-committed (a ∷ rest) s =
      reject_each-committed rest (reject_approval lib task_id actor_id key reason now a s).1

  -- Rejecting counts the pending approvals and commits nothing.
  reject_pending-counts :
      (s : Session) (n : ℕ)
      → (reject_pending lib task_id actor_id key reason now s).0 ≡ ok n
      → (length (pending_approvals s.current task_id) ≡ n)
        × ((reject_pending lib task_id actor_id key reason now s).1.committed ≡ s.committed)
  unfolding reject_pending ◌>>=◌
  reject_pending-counts s n h =
      let rows = pending_approvals s.current task_id in
      let each = reject_each lib task_id actor_id key reason now rows in
      (
        counted each (length rows) n s h,
        ap (λ (t : Session). t.committed) (bind-pure_state each (λ _. length rows) s)
            ∙ reject_each-committed rows s,
      )

module _ (lib : TextLibrary) (settings : Settings) where
  cancel_run-approvals :
      (actor_id reason : String) (now : ℕ) (active : Option Run) (s : Session)
      → (cancel_run lib settings actor_id reason now active s).1.current.approvals
        ≡ s.current.approvals
  unfolding cancel_run ◌>>=◌
  cancel_run-approvals actor_id reason now none s = refl
  cancel_run-approvals actor_id reason now (some r) s =
      (LeavesLifecycle-bind (ingest_run_usage lib (cancelled_run reason now r) settings actor_id)
          (λ _. pure tt) (ingest-LeavesLifecycle lib (cancelled_run reason now r) settings actor_id)
          (λ _. LeavesLifecycle-pure tt)).approvals
        _

  close_task-approvals :
      (task : Task) (actor_id key reason : String) (now : ℕ) (s : Session)
      → (close_task lib settings task actor_id key reason now s).1.current.approvals
        ≡ s.current.approvals
  unfolding close_task ◌>>=◌
  close_task-approvals task actor_id key reason now s =
      grind (arith, cancel_run-approvals actor_id reason now)

  finish_cancel-pending :
      (task : Task) (actor_id reason : String) (task_id : ℕ) (s : Session)
      → pending_approvals (finish_cancel task actor_id reason s).1.committed task_id
        ≡ pending_approvals s.current task_id
  unfolding finish_cancel get_task pending_approvals ◌>>=◌
  finish_cancel-pending task actor_id reason task_id s =
      elim (Option-cases (Table.get task.id s.current.tasks)) [
        | inl missing ↦ rw missing refl
        | inr (t, found) ↦ rw found refl
      ]

  cancel_new-cleared :
      (task : Task) (actor_id key reason : String) (now : ℕ) (s s' : Session) (x : Task × Bool)
      → Distinct s.current.approvals
      → cancel_new lib settings task actor_id key reason now s ≡ (ok x, s')
      → pending_approvals s'.committed task.id ≡ []
  unfolding cancel_new
  cancel_new-cleared task actor_id key reason now s s' x u h =
      let closing = close_task lib settings task actor_id key reason now in
      let rejecting = reject_pending lib task.id actor_id key reason now in
      let (_, _, later) =
        bind-ok closing (λ _. rejecting >>= λ _. finish_cancel task actor_id reason) s s' x h in
      let (_, _, last) =
        bind-ok rejecting (λ _. finish_cancel task actor_id reason) (closing s).1 s' x later in
      let closed = close_task-approvals task actor_id key reason now s in
      ap (λ y. pending_approvals y.1.committed task.id) (sym last)
      ∙ finish_cancel-pending task actor_id reason task.id _
      ∙ reject_pending-cleared lib task.id actor_id key reason now (closing s).1
          (subst Distinct (sym closed) u)

  cancel_again-cleared :
      (task : Task) (actor_id key reason : String) (now : ℕ) (s s' : Session) (x : Task × Bool)
      → s.committed ≡ s.current
      → Distinct s.current.approvals
      → cancel_again lib task actor_id key reason now s ≡ (ok x, s')
      → pending_approvals s'.committed task.id ≡ []
  unfolding cancel_again
  cancel_again-cleared task actor_id key reason now s s' x opened u h =
      let rejecting = reject_pending lib task.id actor_id key reason now in
      let ending : ℕ → Exec (Task × Bool) = λ n. when (ltb 0 n) commit >> pure (task, true) in
      let (_, later) =
        raise_if-bind-ok (not (opt_str_eq task.cancel_idempotency_key (some key)))
          (error Code.already_cancelled) (λ _. rejecting >>= ending) s s' x h in
      let (n, some_rejected, last) = bind-ok rejecting ending s s' x later in
      let (count, kept) =
        reject_pending-counts lib task.id actor_id key reason now s n some_rejected in
      let stored = stored_if (ltb 0 n) (task, true) x (rejecting s).1 s' last in
      elim (Bool-cases (ltb 0 n)) [
        | inl any ↦
            ap (λ d. pending_approvals d task.id) (stored ∙ if_true _ _ _ any)
            ∙ reject_pending-cleared lib task.id actor_id key reason now s u
        | inr none_left ↦
            ap (λ d. pending_approvals d task.id)
              (stored ∙ if_false _ _ _ none_left ∙ kept ∙ opened)
            ∙ no_rows (pending_approvals s.current task.id)
                (ap (λ (k : ℕ). ltb 0 k) count ∙ none_left)
      ]

  opened-cleared :
      (task_id : ℕ) (actor_id key reason : String) (now : Option ℕ) (s s' : Session)
      (x : Task × Bool)
      → s.committed ≡ s.current
      → Distinct s.current.approvals
      → cancel_task lib settings task_id actor_id key reason now s ≡ (ok x, s')
      → pending_approvals s'.committed task_id ≡ []
  unfolding cancel_task get_task ◌>>=◌
  opened-cleared task_id actor_id key reason now s s' x opened u h =
      elim (Option-cases (Table.get task_id s.current.tasks)) [
        | inl missing ↦ absurd (ground arith)
        | inr (task, found) ↦
            subst (λ i. pending_approvals s'.committed i ≡ [])
              (Table.get-key task_id s.current.tasks task found)
              (elim (Bool-cases (is_some task.cancel_idempotency_key)) [
                | inl again ↦
                    cancel_again-cleared task actor_id key reason (or_else now s.clock) s s' x
                      opened u (ground arith)
                | inr new ↦
                    cancel_new-cleared task actor_id key reason (or_else now s.clock) s s' x u
                      (ground arith)
              ])
      ]

  -- After a request to cancel a task that returns, new or repeated, no stored approval of the task's
  -- runs is pending, if no two approvals had the same identifier.
  pub cancel-cleared :
      (task_id : ℕ) (actor_id key reason : String) (now : Option ℕ) (clock : ℕ) (d : Db)
      (x : Task × Bool)
      → Distinct d.approvals
      → (request (cancel_task lib settings task_id actor_id key reason now) clock d).0 ≡ ok x
      → pending_approvals
          (request (cancel_task lib settings task_id actor_id key reason now) clock d).1
          task_id
        ≡ []
  unfolding request
  cancel-cleared task_id actor_id key reason now clock d x u h =
      opened-cleared task_id actor_id key reason now
        (record { current = d; committed = d; clock = clock }) _ x refl u (pair_of _ (ok x) h)
