-- ===== src/Task/Terminal/Leases.antt =====
-- The invariant through the leases: claims, heartbeats and releases.
use hermes_orchestrator.Prelude.{
  ℕ, ◌≡◌, Bool, true, false, String, Option, List, [], ◌∷◌, arith, All, All-take, filter,
  Bool-cases, inl, inr,
}
use hermes_orchestrator.Models.Status.{RunStatus, is_terminal, run_status_in, dispatching, running}
use hermes_orchestrator.Models.Rows.{Run}
use hermes_orchestrator.Store.Exec.{Db, Exec, save_run, ◌>>=◌}
use hermes_orchestrator.Store.Keeps.{Keeps, Keeps-bind, Keeps-gets-bind, keeps_rules}
use hermes_orchestrator.Task.Lease.{
  is_claimable, claimable_runs, claimed_run, claim_run, claim_runs, claim_dispatching_runs,
  require_active_lease, heartbeat_run_lease, release_run_lease, renew_lease, give_back_lease,
}
use hermes_orchestrator.Task.Lease.Claimed.{All-sort_runs}
use hermes_orchestrator.Task.Terminal.{WellFormed}
use hermes_orchestrator.Task.Terminal.Steps.{
  save_run-WellFormed, add_audit-WellFormed, get_run-WellFormed,
}

ruleset steps = (keeps_rules, add_audit-WellFormed)

-- The run may have a lease, since it has not ended.
abbrev Leasable : Run → Type 0
Leasable r = run_status_in r.status (dispatching ∷ running ∷ []) ≡ true

leasable_status :
    (st : RunStatus) → run_status_in st (dispatching ∷ running ∷ []) ≡ true → is_terminal st ≡ false
leasable_status st h = ground arith

claimable-Leasable :
    (locked : ℕ → Bool) (now : ℕ) (rs : List Run)
    → All Leasable (filter (is_claimable locked now) rs)
unfolding is_claimable
claimable-Leasable locked now [] = tt
claimable-Leasable locked now (r ∷ rs) = ground (arith, claimable-Leasable locked now rs)

claimable_runs-Leasable :
    (locked : ℕ → Bool) (now limit : ℕ) (d : Db) → All Leasable (claimable_runs locked now limit d)
unfolding claimable_runs
claimable_runs-Leasable locked now limit d =
    All-take Leasable limit _ (All-sort_runs Leasable _ (claimable-Leasable locked now d.runs))

-- A run that has not ended is saved with whatever lease.
save-Leasable-WellFormed : (r : Run) → Leasable r → Keeps WellFormed (save_run r)
save-Leasable-WellFormed r h =
    save_run-WellFormed r (λ e. ground (arith, leasable_status r.status h))

claim_run-WellFormed :
    (owner : String) (now expires : ℕ) (r : Run)
    → Leasable r
    → Keeps WellFormed (claim_run owner now expires r)
unfolding claim_run claimed_run
claim_run-WellFormed owner now expires r h =
    Keeps-bind _ _ (save-Leasable-WellFormed _ h) (λ _. add_audit-WellFormed _)

claim_runs-WellFormed :
    (owner : String) (now expires : ℕ) (rs : List Run)
    → All Leasable rs
    → Keeps WellFormed (claim_runs owner now expires rs)
unfolding claim_runs
claim_runs-WellFormed owner now expires [] h = search steps
claim_runs-WellFormed owner now expires (r ∷ rs) h =
    Keeps-bind _ _ (claim_run-WellFormed owner now expires r h.0)
      (λ _. Keeps-bind _ _ (claim_runs-WellFormed owner now expires rs h.1) (λ _. search steps))

pub claim_dispatching_runs-WellFormed :
    (locked : ℕ → Bool) (owner : String) (duration limit : ℕ) (now : Option ℕ)
    → Keeps WellFormed (claim_dispatching_runs locked owner duration limit now)
unfolding claim_dispatching_runs
claim_dispatching_runs-WellFormed locked owner duration limit now =
    search (steps, Keeps-gets-bind, claimable_runs-Leasable, claim_runs-WellFormed) depth 14

-- What follows the check of a lease may use that the run has not ended.
require_active_lease-bind :
    {B : Type 0} (r : Run) (owner : String) (now : ℕ) (f : Unit → Exec B)
    → (Leasable r → Keeps WellFormed (f tt))
    → Keeps WellFormed (require_active_lease r owner now >>= f)
unfolding require_active_lease ◌>>=◌
require_active_lease-bind r owner now f kf =
    elim (Bool-cases (run_status_in r.status (dispatching ∷ running ∷ []))) [
      | inl may ↦ record { at = λ s h k. ground (arith, (kf may).at s h k) }
      | inr may_not ↦ record { at = λ s h k. ground arith }
    ]

pub heartbeat-WellFormed :
    (run_id : ℕ) (owner : String) (duration : ℕ) (now : Option ℕ)
    → Keeps WellFormed (heartbeat_run_lease run_id owner duration now)
unfolding heartbeat_run_lease renew_lease
heartbeat-WellFormed run_id owner duration now =
    search (steps, get_run-WellFormed, require_active_lease-bind, save-Leasable-WellFormed) depth 16

pub release-WellFormed :
    (run_id : ℕ) (owner : String) (next_attempt_at : ℕ) (now : Option ℕ)
    → Keeps WellFormed (release_run_lease run_id owner next_attempt_at now)
unfolding release_run_lease give_back_lease
release-WellFormed run_id owner next_attempt_at now =
    search (steps, get_run-WellFormed, require_active_lease-bind, save-Leasable-WellFormed) depth 16
