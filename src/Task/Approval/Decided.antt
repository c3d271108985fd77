-- ===== src/Task/Approval/Decided.antt =====
-- What a resolution has checked, returned and stored (`resolve_approval`).
use hermes_orchestrator.Prelude.{
  ℕ, ◌≡◌, ap, sym, ◌∙◌, subst, ◌⊎◌, inl, inr, Bool, true, false, String, Option, none, some, arith,
  or_else, Option-cases, Bool-cases, leb, is_some, if◌then◌else◌,
}
use hermes_orchestrator.Models.Rows.{Task, Run, Approval}
use hermes_orchestrator.Models.Settings.{Settings, TextLibrary}
use hermes_orchestrator.Store.Table
use hermes_orchestrator.Store.Exec.{
  Session, Exec, Exception, ok, Code, error, raise, pure, Run-Keyed, Task-Keyed, Approval-Keyed,
  ◌>>=◌,
}
use hermes_orchestrator.Store.Inversion.{bind-ok, pair_of, pure-ok}
use hermes_orchestrator.Task.Base.{get_run, get_task}
use hermes_orchestrator.Task.Approval.{
  Decision, latest_approval, replay_approval, expire_writes, expire_approval, decided,
  decide_writes, decide, check_decider, decide_or_expire, resolve_approval,
}
use hermes_orchestrator.Task.Approval.Bears.{
  Bears, SameRequest, decided-Bears, decided-SameRequest, decided-decided_at, same_decision-Bears,
}
use hermes_orchestrator.Task.Approval.Deciders.{
  MayDecide, check_decider_state, check_decider-MayDecide,
}
use hermes_orchestrator.Task.Approval.Stored.{Stored, latest_approval-row, decide_writes-Stored}

-- The call decided the approval, or repeated the decision that stands.
pub record Resolved (run_id : ℕ) (actor_id key : String) (decision : Decision) (reason : String)
    (now : ℕ) (s s' : Session) (a' : Approval) (is_replay : Bool) : Type 0 where
  pub run : Run
  pub run_found : Table.get run_id s.current.runs ≡ some run
  pub task : Task
  pub task_found : Table.get run.task_id s.current.tasks ≡ some task
  pub row : Approval
  pub row_found : latest_approval s.current run.id ≡ some row
  pub bears : Bears actor_id key decision reason a'
  pub outcome :
      ((is_replay ≡ true) × (s' ≡ s) × (a' ≡ row))
      ⊎ ((is_replay ≡ false)
          × MayDecide actor_id run task row now
          × (row.decision_idempotency_key ≡ none)
          × SameRequest row a'
          × (a'.decided_at ≡ some now)
          × Stored run task row a' decision now s'.committed)

raise-not_ok : {A : Type 0} (e : Exception) (s s' : Session) (x : A) → ¬ (raise e s ≡ (ok x, s'))
unfolding ◌>>=◌
raise-not_ok e s s' x h = cc

module _ (lib : TextLibrary) (settings : Settings) (actor_id key : String) (decision : Decision)
    (reason : String) (run : Run) (task : Task) (a : Approval) (now : ℕ) where
  expire_approval-raises :
      (s s' : Session) (x : Approval × Bool)
      → ¬ (expire_approval lib settings run task a now s ≡ (ok x, s'))
  unfolding expire_approval
  expire_approval-raises s s' x h =
      let (_, _, raised) =
        bind-ok (expire_writes lib settings run task a now)
          (λ _. raise (error Code.approval_expired)) s s' x h in
      raise-not_ok _ _ s' x raised

  -- The approval has a row, and so have the task and the run.
  abbrev Rows : Session → Type 0
  Rows s =
      ((y : Approval) × (Table.get a.id s.current.approvals ≡ some y))
      × (Table.get task.id s.current.tasks ≡ some task)
      × (Table.get run.id s.current.runs ≡ some run)

  abbrev result : Approval
  result = decided a actor_id key decision reason now

  decide-ok :
      (s s' : Session) (x : Approval × Bool)
      → Rows s
      → decide lib settings actor_id key decision reason run task a now s ≡ (ok x, s')
      → (x ≡ (result, false)) × Stored run task a result decision now s'.committed
  unfolding decide
  decide-ok s s' x ((y, row), task_row, run_row) h =
      let (u, wrote, done) =
        bind-ok (decide_writes lib settings actor_id key decision reason run task a now)
          (λ _. pure (result, false)) s s' x h in
      let s1 = (decide_writes lib settings actor_id key decision reason run task a now s).1 in
      let (same, last) = pure-ok (result, false) x s1 s' done in
      (
        same,
        subst (λ (z : Session). Stored run task a result decision now z.committed) (sym last)
            (decide_writes-Stored lib settings actor_id key decision reason run task a y now s s1
              row task_row run_row (pair_of _ (ok tt) wrote)),
      )

  abbrev branches : Bool → Exec (Approval × Bool)
  branches late =
      if late
      then expire_approval lib settings run task a now
      else decide lib settings actor_id key decision reason run task a now

  decide_or_expire-ok :
      (s s' : Session) (x : Approval × Bool)
      → Rows s
      → decide_or_expire lib settings actor_id key decision reason run task a now s ≡ (ok x, s')
      → MayDecide actor_id run task a now
        × (x ≡ (result, false))
        × Stored run task a result decision now s'.committed
  unfolding decide_or_expire
  decide_or_expire-ok s s' x rows h =
      let (_, passed, later) =
        bind-ok (check_decider actor_id run task a) (λ _. branches (leb a.expires_at now)) s s' x
          h in
      let s1 = (check_decider actor_id run task a s).1 in
      let same = check_decider_state actor_id run task a s s1 (pair_of _ (ok tt) passed) in
      elim (Bool-cases (leb a.expires_at now)) [
        | inl late ↦
            absurd
              (expire_approval-raises s1 s' x (subst (λ b. branches b s1 ≡ (ok x, s')) late later))
        | inr in_time ↦
            let (given, stored) =
              decide-ok s1 s' x (subst Rows (sym same) rows)
                (subst (λ b. branches b s1 ≡ (ok x, s')) in_time later) in
            (check_decider-MayDecide actor_id run task a now s passed in_time, given, stored)
      ]

module _ (lib : TextLibrary) (settings : Settings) (run_id : ℕ) (actor_id key : String)
    (decision : Decision) (reason : String) (now : Option ℕ) where
  abbrev resolving : Run → Task → Approval → ℕ → Bool → Exec (Approval × Bool)
  resolving run task a t has_key =
      if has_key
      then replay_approval a actor_id key decision reason
      else decide_or_expire lib settings actor_id key decision reason run task a t

  resolve-rows :
      (s s' : Session) (x : Approval × Bool)
      → resolve_approval lib settings run_id actor_id key decision reason now s ≡ (ok x, s')
      → (run : Run) × (Table.get run_id s.current.runs ≡ some run)
        × (task : Task) × (Table.get run.task_id s.current.tasks ≡ some task)
        × (a : Approval) × (latest_approval s.current run.id ≡ some a)
        × (resolving run task a (or_else now s.clock) (is_some a.decision_idempotency_key) s
            ≡ (ok x, s'))
  unfolding resolve_approval get_run get_task ◌>>=◌
  resolve-rows s s' x h = elim (Option-cases (Table.get run_id s.current.runs)) [
    | inl missing ↦ absurd (ground arith)
    | inr (run, run_found) ↦ elim (Option-cases (Table.get run.task_id s.current.tasks)) [
      | inl missing ↦ absurd (ground arith)
      | inr (task, task_found) ↦ elim (Option-cases (latest_approval s.current run.id)) [
        | inl missing ↦ absurd (ground arith)
        | inr (a, row_found) ↦ (run, run_found, task, task_found, a, row_found, ground arith)
      ]
    ]
  ]

  replay-ok :
      (a : Approval) (s s' : Session) (x : Approval × Bool)
      → replay_approval a actor_id key decision reason s ≡ (ok x, s')
      → (x ≡ (a, true)) × (s' ≡ s) × Bears actor_id key decision reason a
  unfolding replay_approval ◌>>=◌
  replay-ok a s s' x h = (
    ground arith,
    ground arith,
    same_decision-Bears a actor_id key decision reason (ground arith),
  )

  -- A resolution that returns is about the latest approval of the run, and returns it with the
  -- decision: approved or rejected as was said, by the actor, with the reason and under the key.
  -- Either it says that it is a replay: then that is the stored row, and the session is as it was.
  -- Or the approval had no key, its time was not over, the actor is not the run's worker and is the
  -- reviewer where the task wants an independent review, and a completion is decided only for a
  -- completed run. Then the approval is decided at that time, its request is as it was, and it is
  -- committed under its identifier. Of the committed task only the status may be new: failed after a
  -- rejection, and after an approval completed for a completion and dispatched for anything else. The
  -- committed run is as it was for a completion; otherwise it is dispatching and due at that time
  -- after an approval, and failed, ended at that time and without a lease owner after a rejection.
  pub resolve-Resolved :
      (s s' : Session) (a' : Approval) (is_replay : Bool)
      → resolve_approval lib settings run_id actor_id key decision reason now s
        ≡ (ok (a', is_replay), s')
      → Resolved run_id actor_id key decision reason (or_else now s.clock) s s' a' is_replay
  resolve-Resolved s s' a' is_replay h =
      let (run, run_found, task, task_found, a, row_found, rest) =
        resolve-rows s s' (a', is_replay) h in
      let t = or_else now s.clock in
      let by_key : (o : Option String)
          → a.decision_idempotency_key ≡ o
          → resolving run task a t (is_some o) s ≡ (ok (a', is_replay), s') =
        λ o e.
          subst
            (λ (k : Option String). resolving run task a t (is_some k) s ≡ (ok (a', is_replay), s'))
            e rest in
      elim (Option-cases a.decision_idempotency_key) [
        | inl undecided ↦
            let (may, result, stored) =
              decide_or_expire-ok lib settings actor_id key decision reason run task a t s s'
                (a', is_replay)
                (
                  latest_approval-row s.current run.id a row_found,
                  subst (λ (i : ℕ). Table.get i s.current.tasks ≡ some task)
                      (sym (Table.get-key run.task_id s.current.tasks task task_found)) task_found,
                  subst (λ (i : ℕ). Table.get i s.current.runs ≡ some run)
                      (sym (Table.get-key run_id s.current.runs run run_found)) run_found,
                )
                (by_key none undecided) in
            let same : decided a actor_id key decision reason t ≡ a' = sym (ap (λ x. x.0) result) in
            record {
              run = run;
              run_found = run_found;
              task = task;
              task_found = task_found;
              row = a;
              row_found = row_found;
              bears =
                  subst (Bears actor_id key decision reason) same
                    (decided-Bears a actor_id key decision reason t);
              outcome = inr (
                ap (λ x. x.1) result,
                may,
                undecided,
                subst (SameRequest a) same (decided-SameRequest a actor_id key decision reason t),
                ap (λ (x : Approval). x.decided_at) (sym same)
                    ∙ decided-decided_at a actor_id key decision reason t,
                subst (λ (x : Approval). Stored run task a x decision t s'.committed) same stored,
              );
            }
        | inr (k, has_key) ↦
            let (result, same, stands) =
              replay-ok a s s' (a', is_replay) (by_key (some k) has_key) in
            record {
              run = run;
              run_found = run_found;
              task = task;
              task_found = task_found;
              row = a;
              row_found = row_found;
              bears =
                  subst (Bears actor_id key decision reason) (sym (ap (λ x. x.0) result)) stands;
              outcome = inl (ap (λ x. x.1) result, same, ap (λ x. x.0) result);
            }
      ]
