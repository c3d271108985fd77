-- ===== src/Task/Lease.antt =====
-- The leases of task_services.py: `claim_dispatching_runs`, `heartbeat_run_lease` and
-- `release_run_lease`.
pub mod Claimed
pub mod Exclusive
pub mod Held
use hermes_orchestrator.Prelude.{
  ℕ, zero, suc, ◌+◌, Bool, true, false, ◌&&◌, ◌||◌, not, String, Option, none, some, List, [], ◌∷◌,
  str_eq, is_blank, leb, ltb, ◌==◌, filter, take, if◌then◌else◌,
}
use hermes_orchestrator.Models.Json.{Fields, end, field, number, instant}
use hermes_orchestrator.Models.Status.{RunStatus, dispatching, running, run_status_in}
use hermes_orchestrator.Models.Rows.{Run}
use hermes_orchestrator.Store.Exec.{
  Db, Exec, Exception, Code, error, pure, gets, raise_if, effective_time, commit, save_run, ◌>>=◌,
  ◌>>◌,
}
use hermes_orchestrator.Usage.Circuit.{opt_str_eq}
use hermes_orchestrator.Task.Base.{append_audit, get_run, clear_run_lease, lease_is_free}

-- `_validate_lease_duration`; a span is not negative here.
validate_lease_duration : ℕ → Exec Unit
validate_lease_duration lease_duration =
    raise_if (leb lease_duration 0) (error Code.invalid_lease_duration)

abbrev leasable_statuses : List RunStatus
leasable_statuses = dispatching ∷ running ∷ []

-- `_require_active_lease`
unfoldable pub require_active_lease : Run → String → ℕ → Exec Unit
require_active_lease run lease_owner now = do
  raise_if (not (opt_str_eq run.lease_owner (some lease_owner)))
      (error Code.dispatch_lease_owner_mismatch)
  raise_if (lease_is_free now run) (error Code.dispatch_lease_expired)
  raise_if (not (run_status_in run.status leasable_statuses)) (error Code.dispatch_lease_inactive)

-- The `where` of the claim; `locked` are the rows that other transactions hold (`skip_locked`).
unfoldable pub is_claimable : (ℕ → Bool) → ℕ → Run → Bool
is_claimable locked now r =
    run_status_in r.status leasable_statuses
    && leb r.next_attempt_at now
    && lease_is_free now r
    && not (locked r.id)

-- The `order_by` of the claim.
claimed_before : Run → Run → Bool
claimed_before a b =
    ltb a.next_attempt_at b.next_attempt_at
    || (a.next_attempt_at == b.next_attempt_at
        && (ltb a.created_at b.created_at || (a.created_at == b.created_at && leb a.id b.id)))

insert_run : Run → List Run → List Run
unfolding claimed_before
insert_run r [] = r ∷ []
insert_run r (x ∷ xs) =
    let rest = insert_run r xs in if claimed_before r x then r ∷ x ∷ xs else x ∷ rest

unfoldable pub sort_runs : List Run → List Run
unfolding insert_run
sort_runs [] = []
sort_runs (r ∷ rs) = insert_run r (sort_runs rs)

-- The rows that the claim's statement returns.
unfoldable pub claimable_runs : (ℕ → Bool) → ℕ → ℕ → Db → List Run
unfolding is_claimable sort_runs
claimable_runs locked now limit d = take limit (sort_runs (filter (is_claimable locked now) d.runs))

unfoldable pub claimed_run : String → ℕ → ℕ → Run → Run
claimed_run lease_owner now expires r = record r {
  lease_owner = some lease_owner;
  lease_acquired_at = some now;
  lease_expires_at = some expires;
  heartbeat_at = some now;
  dispatch_attempts = r.dispatch_attempts + 1;
}

unfoldable pub claim_run : String → ℕ → ℕ → Run → Exec Unit
unfolding claimed_run append_audit
claim_run lease_owner now expires r = do
  save_run (claimed_run lease_owner now expires r)
  append_audit lease_owner "run.claimed" "run" r.id (
      field "dispatch_attempt" (number (r.dispatch_attempts + 1))
        (field "lease_expires_at" (instant expires) end))

-- The loop over the rows.
unfoldable pub claim_runs : String → ℕ → ℕ → List Run → Exec (List Run)
unfolding claim_run
claim_runs lease_owner now expires [] = pure []
claim_runs lease_owner now expires (r ∷ rs) = do
  claim_run lease_owner now expires r
  rest ← claim_runs lease_owner now expires rs
  pure (claimed_run lease_owner now expires r ∷ rest)

unfoldable pub claim_dispatching_runs : (ℕ → Bool) → String → ℕ → ℕ → Option ℕ → Exec (List Run)
unfolding validate_lease_duration claimable_runs claim_runs
claim_dispatching_runs locked lease_owner lease_duration limit now = do
  raise_if (is_blank lease_owner) (error Code.invalid_lease_owner)
  raise_if (ltb limit 1) (error Code.invalid_claim_limit)
  validate_lease_duration lease_duration
  effective_now ← effective_time now
  rows ← gets (claimable_runs locked effective_now limit)
  claimed ← claim_runs lease_owner effective_now (effective_now + lease_duration) rows
  commit
  pure claimed

-- The writes of a heartbeat.
unfoldable pub renew_lease : ℕ → ℕ → Run → Exec Run
renew_lease lease_duration now run = do
  let renewed = record run {
    heartbeat_at = some now;
    lease_expires_at = some (now + lease_duration);
  }
  save_run renewed
  commit
  pure renewed

unfoldable pub heartbeat_run_lease : ℕ → String → ℕ → Option ℕ → Exec Run
unfolding validate_lease_duration get_run require_active_lease renew_lease
heartbeat_run_lease run_id lease_owner lease_duration now = do
  validate_lease_duration lease_duration
  effective_now ← effective_time now
  run ← get_run run_id
  require_active_lease run lease_owner effective_now
  renew_lease lease_duration effective_now run

-- The writes of a release.
unfoldable pub give_back_lease : String → ℕ → Run → Exec Run
unfolding append_audit
give_back_lease lease_owner next_attempt_at run = do
  let released = record (clear_run_lease run) { next_attempt_at = next_attempt_at }
  save_run released
  append_audit lease_owner "run.lease_released" "run" run.id
      (field "next_attempt_at" (instant next_attempt_at) end)
  commit
  pure released

unfoldable pub release_run_lease : ℕ → String → ℕ → Option ℕ → Exec Run
unfolding get_run require_active_lease give_back_lease
release_run_lease run_id lease_owner next_attempt_at now = do
  effective_now ← effective_time now
  run ← get_run run_id
  require_active_lease run lease_owner effective_now
  give_back_lease lease_owner next_attempt_at run
