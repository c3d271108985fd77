-- ===== src/Task/Service/Claims.antt =====
-- Two dispatchers that claim runs one after the other, in a store that requests have reached.
use hermes_orchestrator.Prelude.{ℕ, ◌+◌, ◌<◌, ◌≡◌, ◌≢◌, refl, Bool, String, some, List, All}
use hermes_orchestrator.Models.Rows.{Run}
use hermes_orchestrator.Models.Settings.{Settings, TextLibrary}
use hermes_orchestrator.Store.Exec.{Db, Session, Result, ok, request, Run-Keyed}
use hermes_orchestrator.Store.Keeps.{Keeps-request}
use hermes_orchestrator.Store.Inversion.{pair_of}
use hermes_orchestrator.Task.Lease.{claim_dispatching_runs}
use hermes_orchestrator.Task.Lease.Exclusive.{claim-claim_disjoint}
use hermes_orchestrator.Task.Terminal.{WellFormed}
use hermes_orchestrator.Task.Terminal.Leases.{claim_dispatching_runs-WellFormed}
use hermes_orchestrator.Task.Service.{Reach, Reach-WellFormed}

-- The session of a request at a time.
abbrev opened : ℕ → Db → Session
opened now d = record { current = d; committed = d; clock = now }

module _ (locked locked' : ℕ → Bool) (owner owner' : String) (duration duration' limit limit' : ℕ)
    (now now' : ℕ) where
  abbrev first_claim : Db → Result (List Run) × Db
  first_claim = request (claim_dispatching_runs locked owner duration limit (some now)) now

  abbrev next_claim : Db → Result (List Run) × Db
  next_claim = request (claim_dispatching_runs locked' owner' duration' limit' (some now')) now'

  -- In a store that requests have reached from a well-formed one, two claims one after the other
  -- return no run in common, whoever makes them, if the second comes before the first one's leases
  -- end.
  pub Reach-claims_disjoint :
      (lib : TextLibrary) (settings : Settings) (d d' : Db) (rs rs' : List Run)
      → WellFormed d
      → Reach lib settings d d'
      → (first_claim d').0 ≡ ok rs
      → now' < now + duration
      → (next_claim (first_claim d').1).0 ≡ ok rs'
      → All (λ (r : Run). All (λ (r' : Run). r.id ≢ r'.id) rs') rs
  unfolding request
  Reach-claims_disjoint lib settings d d' rs rs' h reached claimed early claimed' =
      let good = Reach-WellFormed lib settings d d' h reached in
      let still =
        Keeps-request (claim_dispatching_runs locked owner duration limit (some now)) now d'
          (claim_dispatching_runs-WellFormed locked owner duration limit (some now)) good in
      let e = (first_claim d').1 in
      claim-claim_disjoint locked locked' owner owner' duration duration' limit limit' (some now)
        (some now') (opened now d') _ (opened now' e) _ rs rs' good.1.0.0 still.1.0.0
        (pair_of _ (ok rs) claimed) refl early (pair_of _ (ok rs') claimed')
