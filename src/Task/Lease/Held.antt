-- ===== src/Task/Lease/Held.antt =====
-- Who may renew or give back a lease (`heartbeat_run_lease`, `release_run_lease`).
use hermes_orchestrator.Prelude.{
  ℕ, ◌+◌, ◌≡◌, refl, ◌∙◌, sym, subst, true, false, String, Option, none, some, arith, or_else, leb,
  Option-cases, inl, inr,
}
use hermes_orchestrator.Models.Status.{run_status_in}
use hermes_orchestrator.Models.Rows.{Run}
use hermes_orchestrator.Store.Table
use hermes_orchestrator.Store.Exec.{
  Session, Exec, ok, err, Run-Keyed, effective_time, Code, error, ◌>>=◌, ◌>>◌,
}
use hermes_orchestrator.Store.Inversion.{raise_if-bind-ok}
use hermes_orchestrator.Usage.Circuit.{opt_str_eq}
use hermes_orchestrator.Task.Base.{get_run, lease_is_free, clear_run_lease, lifecycle_error}
use hermes_orchestrator.Task.Lease.{
  require_active_lease, renew_lease, give_back_lease, leasable_statuses, heartbeat_run_lease,
  release_run_lease,
}

-- The caller holds the run's lease, it has not run out, and the run has not ended.
pub record HeldBy (owner : String) (now : ℕ) (r : Run) : Type 0 where
  pub owned : opt_str_eq r.lease_owner (some owner) ≡ true
  pub live : lease_is_free now r ≡ false
  pub leasable : run_status_in r.status leasable_statuses ≡ true

require_active_lease-HeldBy :
    (owner : String) (now : ℕ) (r : Run) (s : Session)
    → (require_active_lease r owner now s).0 ≡ ok tt
    → HeldBy owner now r
unfolding require_active_lease ◌>>=◌
require_active_lease-HeldBy owner now r s h = record {
  owned = ground arith;
  live = ground arith;
  leasable = ground arith;
}

renew_lease-ok :
    (duration now : ℕ) (r : Run) (s s' : Session) (r' : Run)
    → Table.get r.id s.current.runs ≡ some r
    → renew_lease duration now r s ≡ (ok r', s')
    → (r'.lease_expires_at ≡ some (now + duration)) × (Table.get r.id s'.committed.runs ≡ some r')
unfolding renew_lease ◌>>=◌
renew_lease-ok duration now r s s' r' row h =
    let renewed = record r { heartbeat_at = some now; lease_expires_at = some (now + duration) } in
    ground (arith, Table.get-put_self renewed r s.current.runs row)

give_back_lease-ok :
    (owner : String) (next_attempt_at : ℕ) (r : Run) (s s' : Session) (r' : Run)
    → Table.get r.id s.current.runs ≡ some r
    → give_back_lease owner next_attempt_at r s ≡ (ok r', s')
    → (r' ≡ record (clear_run_lease r) { next_attempt_at = next_attempt_at })
      × (Table.get r.id s'.committed.runs ≡ some r')
unfolding give_back_lease ◌>>=◌
give_back_lease-ok owner next_attempt_at r s s' r' row h =
    let released = record (clear_run_lease r) { next_attempt_at = next_attempt_at } in
    ground (arith, Table.get-put_self released r s.current.runs row)

module _ (owner : String) where
  -- What follows the check of the lease begins in the same session.
  checked :
      (t : ℕ) (r : Run) (f : Exec Run) (s s' : Session) (r' : Run)
      → (require_active_lease r owner t >> f) s ≡ (ok r', s')
      → HeldBy owner t r × (f s ≡ (ok r', s'))
  unfolding ◌>>=◌ require_active_lease
  checked t r f s s' r' h = (require_active_lease-HeldBy owner t r s (ground arith), ground arith)

module _ (run_id : ℕ) (owner : String) (now : Option ℕ) where
  row_of :
      (r : Run) (s : Session)
      → Table.get run_id s.current.runs ≡ some r
      → Table.get r.id s.current.runs ≡ some r
  row_of r s found =
      subst (λ i. Table.get i s.current.runs ≡ some r)
        (sym (Table.get-key run_id s.current.runs r found)) found

  -- A read of the run, the check of its lease, and what follows.
  abbrev leasing : (ℕ → Run → Exec Run) → Exec Run
  leasing f =
      effective_time now >>= λ t. get_run run_id >>= λ r. require_active_lease r owner t >> f t r

  leasing-found :
      (f : ℕ → Run → Exec Run) (r : Run) (s : Session)
      → Table.get run_id s.current.runs ≡ some r
      → leasing f s
        ≡ (require_active_lease r owner (or_else now s.clock) >> f (or_else now s.clock) r) s
  unfolding get_run ◌>>=◌
  leasing-found f r s found = rw found refl

  leasing-missing :
      (f : ℕ → Run → Exec Run) (s : Session)
      → Table.get run_id s.current.runs ≡ none
      → leasing f s ≡ (err (lifecycle_error Code.not_found 404), s)
  unfolding get_run ◌>>=◌
  leasing-missing f s missing = rw missing refl

  leasing-ok :
      (f : ℕ → Run → Exec Run) (s s' : Session) (r' : Run)
      → leasing f s ≡ (ok r', s')
      → (r : Run) × (Table.get run_id s.current.runs ≡ some r)
        × HeldBy owner (or_else now s.clock) r
        × (f (or_else now s.clock) r s ≡ (ok r', s'))
  leasing-ok f s s' r' h = elim (Option-cases (Table.get run_id s.current.runs)) [
    | inl missing ↦ absurd (ground (arith, sym h ∙ leasing-missing f s missing))
    | inr (r, found) ↦
        let t = or_else now s.clock in
        let (held, rest) =
          checked owner t r (f t r) s s' r' (sym (leasing-found f r s found) ∙ h) in
        (r, found, held, rest)
  ]

  -- A heartbeat that returns found a run that the caller holds a live lease of and that has not ended.
  -- The returned run is stored and leased for the whole duration from now.
  pub heartbeat-HeldBy :
      (duration : ℕ) (s s' : Session) (r' : Run)
      → heartbeat_run_lease run_id owner duration now s ≡ (ok r', s')
      → (r : Run) × (Table.get run_id s.current.runs ≡ some r)
        × HeldBy owner (or_else now s.clock) r
        × (r'.lease_expires_at ≡ some (or_else now s.clock + duration))
        × (Table.get r.id s'.committed.runs ≡ some r')
  unfolding heartbeat_run_lease
  heartbeat-HeldBy duration s s' r' h =
      let (_, later) =
        raise_if-bind-ok (leb duration 0) (error Code.invalid_lease_duration)
          (λ _. leasing (renew_lease duration)) s s' r' h in
      let (r, found, held, rest) = leasing-ok (renew_lease duration) s s' r' later in
      let (result, stored) =
        renew_lease-ok duration (or_else now s.clock) r s s' r' (row_of r s found) rest in
      (r, found, held, result, stored)

  -- A release that returns found a run that the caller holds a live lease of and that has not ended.
  -- The returned run is stored: the same run without its lease, due at the given time.
  pub release-HeldBy :
      (next_attempt_at : ℕ) (s s' : Session) (r' : Run)
      → release_run_lease run_id owner next_attempt_at now s ≡ (ok r', s')
      → (r : Run) × (Table.get run_id s.current.runs ≡ some r)
        × HeldBy owner (or_else now s.clock) r
        × (r' ≡ record (clear_run_lease r) { next_attempt_at = next_attempt_at })
        × (Table.get r.id s'.committed.runs ≡ some r')
  unfolding release_run_lease
  release-HeldBy next_attempt_at s s' r' h =
      let (r, found, held, rest) =
        leasing-ok (λ _. give_back_lease owner next_attempt_at) s s' r' h in
      let (result, stored) =
        give_back_lease-ok owner next_attempt_at r s s' r' (row_of r s found) rest in
      (r, found, held, result, stored)
