-- ===== src/Task/Expiry/Cleared.antt =====
-- After the watchdog no active run is past its time (`expire_due_runs`).
use hermes_orchestrator.Prelude.{
  ℕ, ◌≡◌, refl, sym, ap, subst, inl, inr, false, String, Option, some, List, [], ◌∷◌, filter, map,
  or_else, Option-cases,
}
use hermes_orchestrator.Models.Rows.{Run}
use hermes_orchestrator.Models.Settings.{Settings, TextLibrary}
use hermes_orchestrator.Store.Table
use hermes_orchestrator.Store.Table.{Distinct}
use hermes_orchestrator.Store.Listed.{Listed, put-Listed, none-Listed, all-Listed}
use hermes_orchestrator.Store.Exec.{Session, ok, Run-Keyed, Task-Keyed, ◌>>=◌, ◌>>◌, commit, pure}
use hermes_orchestrator.Store.Keeps.{LeavesLifecycle-bind, LeavesLifecycle-pure}
use hermes_orchestrator.Store.Inversion.{bind-ok, pair_of}
use hermes_orchestrator.Usage.Circuit.{record_run_outcome}
use hermes_orchestrator.Usage.Circuit.Breaking.{record_run_outcome-LeavesLifecycle}
use hermes_orchestrator.Usage.Ledger.{ingest_run_usage}
use hermes_orchestrator.Usage.Ledger.Once.{ingest-LeavesLifecycle}
use hermes_orchestrator.Task.Base.{get_task}
use hermes_orchestrator.Task.Expiry.{
  due_runs, is_due, timed_out_run, expire_run, account_expired, expire_runs, expire_due_runs,
}

module _ (lib : TextLibrary) (settings : Settings) (actor_id : String) (now : ℕ) where
  account_expired-runs :
      (r : Run) (s : Session)
      → (account_expired lib settings actor_id now r s).1.current.runs ≡ s.current.runs
  unfolding account_expired
  account_expired-runs r s =
      (LeavesLifecycle-bind (record_run_outcome r settings actor_id (some now)) _
          (record_run_outcome-LeavesLifecycle r settings actor_id (some now))
          (λ _.
            LeavesLifecycle-bind (ingest_run_usage lib r settings actor_id) _
              (ingest-LeavesLifecycle lib r settings actor_id) (λ _. LeavesLifecycle-pure tt))).runs
        s

  -- A run is expired in its row, and in no other.
  expire_run-runs :
      (r : Run) (s : Session)
      → (expire_run lib settings actor_id now r s).1.current.runs
        ≡ Table.put (timed_out_run now r) s.current.runs
  unfolding expire_run get_task ◌>>=◌
  expire_run-runs r s = elim (Option-cases (Table.get r.task_id s.current.tasks)) [
    | inl missing ↦ rw missing refl
    | inr (t, found) ↦ rw found (account_expired-runs (timed_out_run now r) _)
  ]

  timed_out_not_due : (r : Run) → is_due now (timed_out_run now r) ≡ false
  unfolding timed_out_run
  timed_out_not_due r = refl

  timed_out_id : (r : Run) → (timed_out_run now r).id ≡ r.id
  unfolding timed_out_run
  timed_out_id r = refl

  expire_runs-nil :
      (s s' : Session) → expire_runs lib settings actor_id now [] s ≡ (ok tt, s') → s ≡ s'
  unfolding expire_runs ◌>>=◌
  expire_runs-nil s s' h = ap (λ x. x.1) h

  expire_runs-cleared :
      (rs : List Run) (s s' : Session)
      → Distinct s.current.runs
      → Listed (is_due now) rs s.current.runs
      → expire_runs lib settings actor_id now rs s ≡ (ok tt, s')
      → due_runs now s'.current ≡ []
  unfolding expire_runs due_runs
  expire_runs-cleared [] s s' u l h =
      subst (λ t. filter (is_due now) t.current.runs ≡ []) (expire_runs-nil s s' h)
        (none-Listed (is_due now) s.current.runs l)
  expire_runs-cleared (r ∷ rs) s s' u l h =
      let (_, _, later) =
        bind-ok (expire_run lib settings actor_id now r)
          (λ _. expire_runs lib settings actor_id now rs) s s' tt h in
      let row = timed_out_run now r in
      let stored = sym (expire_run-runs r s) in
      expire_runs-cleared rs _ s' (subst Distinct stored (Table.Distinct-put row s.current.runs u))
        (subst (Listed (is_due now) rs) stored (
          put-Listed (is_due now) r row rs s.current.runs (timed_out_id r) (timed_out_not_due r) u
            l))
        later

stored_at_end :
    {A : Type 0} (a x : A) (s s' : Session)
    → (commit >> pure a) s ≡ (ok x, s')
    → s.current ≡ s'.committed
unfolding ◌>>=◌
stored_at_end a x s s' h = ap (λ y. y.1.committed) h

-- After the watchdog has returned, no stored run is active and past its time, if no two runs had
-- the same identifier.
pub expire-cleared :
    (lib : TextLibrary) (settings : Settings) (actor_id : String) (now : Option ℕ) (s s' : Session)
    (ids : List ℕ)
    → Distinct s.current.runs
    → expire_due_runs lib settings actor_id now s ≡ (ok ids, s')
    → due_runs (or_else now s.clock) s'.committed ≡ []
unfolding expire_due_runs due_runs ◌>>=◌
expire-cleared lib settings actor_id now s s' ids u h =
    let t = or_else now s.clock in
    let due = filter (is_due t) s.current.runs in
    let expiring = expire_runs lib settings actor_id t due in
    let (_, returned, later) =
      bind-ok expiring (λ _. commit >> pure (map (λ (r : Run). r.id) due)) s s' ids h in
    subst (λ d. filter (is_due t) d.runs ≡ []) (stored_at_end _ ids (expiring s).1 s' later)
      (expire_runs-cleared lib settings actor_id t due s (expiring s).1 u
        (all-Listed (is_due t) s.current.runs) (pair_of (expiring s) (ok tt) returned))
