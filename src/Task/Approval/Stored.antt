-- ===== src/Task/Approval/Stored.antt =====
-- What a decision on an approval stores.
use hermes_orchestrator.Prelude.{
  ℕ, ◌≡◌, refl, ◌∙◌, sym, ap, ◌⊎◌, Bool, true, String, some, List, [], ◌∷◌, arith, ==_self, if_true,
  if_false, ltb, filter, is_some, Option-cases, Bool-cases, inl, inr,
}
use hermes_orchestrator.Models.Json.{Fields}
use hermes_orchestrator.Models.Rows.{Task, Run, Approval}
use hermes_orchestrator.Models.Settings.{Settings, TextLibrary}
use hermes_orchestrator.Store.Table
use hermes_orchestrator.Store.Exec.{
  Db, Session, ok, Run-Keyed, Task-Keyed, Approval-Keyed, commit, save_approval, ◌>>=◌, ◌>>◌,
}
use hermes_orchestrator.Store.Inversion.{bind-ok, gets-bind-ok, raise_if-bind-ok}
use hermes_orchestrator.Task.Base.{append_audit}
use hermes_orchestrator.Task.Approval.Applied.{
  Follows, RunFollows, apply_decision-approvals, apply_decision-Follows, apply_decision-RunFollows,
}
use hermes_orchestrator.Task.Approval.{
  Decision, latest, latest_approval, is_completion, decided, decide_writes,
}

latest-cons :
    (b a : Approval) (xs : List Approval)
    → latest (b ∷ xs) ≡ some a
    → (b ≡ a) ⊎ (latest xs ≡ some a)
unfolding latest_approval
latest-cons b a xs h = elim (Option-cases (latest xs)) [
  | inl nothing ↦ inl (ground arith)
  | inr (c, found) ↦ elim (Bool-cases (ltb c.created_at b.created_at)) [
    | inl newer ↦ inl (ground arith)
    | inr older ↦ inr (ground arith)
  ]
]

latest-filter_cons :
    (p : Approval → Bool) (b a : Approval) (xs : List Approval)
    → latest (filter p (b ∷ xs)) ≡ some a
    → (b ≡ a) ⊎ (latest (filter p xs) ≡ some a)
latest-filter_cons p b a xs h = elim (Bool-cases (p b)) [
  | inl holds ↦ latest-cons b a (filter p xs) (ap latest (sym (if_true _ _ _ holds)) ∙ h)
  | inr fails ↦ inr (ap latest (sym (if_false _ _ _ fails)) ∙ h)
]

latest_known :
    (p : Approval → Bool) (t : List Approval) (a : Approval)
    → latest (filter p t) ≡ some a
    → is_some (Table.get a.id t) ≡ true
unfolding latest_approval Table.get
latest_known p [] a h = absurd (ground arith)
latest_known p (b ∷ rest) a h = elim (latest-filter_cons p b a rest h) [
  | inl same ↦ ground (arith, ==_self a.id, ap (λ (x : Approval). x.id) same)
  | inr later ↦ ground (arith, latest_known p rest a later)
]

-- The latest approval of a run has a row.
pub latest_approval-row :
    (d : Db) (run_id : ℕ) (a : Approval)
    → latest_approval d run_id ≡ some a
    → (y : Approval) × (Table.get a.id d.approvals ≡ some y)
unfolding latest_approval
latest_approval-row d run_id a h = elim (Option-cases (Table.get a.id d.approvals)) [
  | inl missing ↦ absurd (ground (arith, latest_known _ d.approvals a h))
  | inr found ↦ found
]

stored_by :
    (actor_id event : String) (id : ℕ) (payload : Fields) (s s' : Session)
    → (append_audit actor_id event "approval" id payload >> commit) s ≡ (ok tt, s')
    → (s'.committed.approvals ≡ s.current.approvals)
      × (s'.committed.tasks ≡ s.current.tasks)
      × (s'.committed.runs ≡ s.current.runs)
unfolding append_audit ◌>>=◌
stored_by actor_id event id payload s s' h = (ground arith, ground arith, ground arith)

saved-approval :
    (a y : Approval) (actor_id key : String) (decision : Decision) (reason : String) (now : ℕ)
    (s : Session)
    → Table.get a.id s.current.approvals ≡ some y
    → Table.get a.id
        (save_approval (decided a actor_id key decision reason now) s).1.current.approvals
      ≡ some (decided a actor_id key decision reason now)
unfolding ◌>>=◌ decided
saved-approval a y actor_id key decision reason now s row =
    Table.get-put_self (decided a actor_id key decision reason now) y s.current.approvals row

save_approval-others :
    (a : Approval) (s : Session)
    → ((save_approval a s).1.current.tasks ≡ s.current.tasks)
      × ((save_approval a s).1.current.runs ≡ s.current.runs)
unfolding ◌>>=◌
save_approval-others a s = (refl, refl)

-- A decision that went through is stored: the approval as decided, and the task and the run as they
-- follow.
pub record Stored (run : Run) (task : Task) (a a' : Approval) (decision : Decision) (now : ℕ)
    (d' : Db) : Type 0 where
  pub approval : Table.get a.id d'.approvals ≡ some a'
  pub task_after : Task
  pub task_row : Table.get task.id d'.tasks ≡ some task_after
  pub task_follows : Follows (is_completion a) decision task task_after
  pub run_after : Run
  pub run_row : Table.get run.id d'.runs ≡ some run_after
  pub run_follows : RunFollows (is_completion a) decision now run run_after

pub decide_writes-Stored :
    (lib : TextLibrary) (settings : Settings) (actor_id key : String) (decision : Decision)
    (reason : String) (run : Run) (task : Task) (a y : Approval) (now : ℕ) (s s' : Session)
    → Table.get a.id s.current.approvals ≡ some y
    → Table.get task.id s.current.tasks ≡ some task
    → Table.get run.id s.current.runs ≡ some run
    → decide_writes lib settings actor_id key decision reason run task a now s ≡ (ok tt, s')
    → Stored run task a (decided a actor_id key decision reason now) decision now s'.committed
unfolding decide_writes
decide_writes-Stored lib settings actor_id key decision reason run task a y now s s' row task_row
      run_row h =
    let h1 = gets-bind-ok _ _ s s' tt h in
    let (u, a1, h2) = bind-ok _ _ s s' tt h1 in
    let (free, h3) = raise_if-bind-ok _ _ _ _ s' tt h2 in
    let (v, a2, h4) = bind-ok _ _ _ s' tt h3 in
    let (approvals, tasks, runs) = stored_by actor_id _ a.id _ _ s' h4 in
    let (after, after_row, follows) =
      apply_decision-Follows lib settings actor_id run task now (is_completion a) decision _
        (ap (Table.get task.id) (save_approval-others _ s).0 ∙ task_row) in
    let (run_after, run_after_row, run_follows) =
      apply_decision-RunFollows lib settings actor_id run task now (is_completion a) decision _
        (ap (Table.get run.id) (save_approval-others _ s).1 ∙ run_row) in
    record {
      approval =
          ap (Table.get a.id) (
            approvals
            ∙ apply_decision-approvals lib settings actor_id run task now (is_completion a) decision
                _)
          ∙ saved-approval a y actor_id key decision reason now s row;
      task_after = after;
      task_row = ap (Table.get task.id) tasks ∙ after_row;
      task_follows = follows;
      run_after = run_after;
      run_row = ap (Table.get run.id) runs ∙ run_after_row;
      run_follows = run_follows;
    }
