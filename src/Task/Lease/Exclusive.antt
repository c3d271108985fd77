-- ===== src/Task/Lease/Exclusive.antt =====
-- A run is leased to one dispatcher at a time (`claim_dispatching_runs`).
use hermes_orchestrator.Prelude.{
  ℕ, ◌+◌, ◌≤◌, ◌<◌, ◌≡◌, refl, ◌≢◌, subst, sym, ap, ◌∙◌, Bool, true, String, Option, some, List,
  arith, length, map, All, All-map, All-map_of, length-map, or_else,
}
use hermes_orchestrator.Models.Rows.{Run}
use hermes_orchestrator.Store.Table
use hermes_orchestrator.Store.Table.{Distinct}
use hermes_orchestrator.Store.Exec.{Db, Session, ok, Run-Keyed, ◌>>=◌}
use hermes_orchestrator.Task.Lease.{
  is_claimable, claimable_runs, claimed_run, claim_runs, claim_dispatching_runs,
}
use hermes_orchestrator.Task.Lease.Claimed.{
  ClaimableRow, claimable_runs-rows, length-claimable_runs, LeasedUntil, HasRow, claim_runs-leases,
  claim_runs_result,
}

module _ (locked : ℕ → Bool) (owner : String) (duration limit : ℕ) (now : Option ℕ) where
  claim_parts :
      (s s' : Session) (rs : List Run)
      → claim_dispatching_runs locked owner duration limit now s ≡ (ok rs, s')
      → let t = or_else now s.clock in
        let rows = claimable_runs locked t limit s.current in
        (rs ≡ map (claimed_run owner t (t + duration)) rows)
        × (s' ≡ (
            let s1 = (claim_runs owner t (t + duration) rows s).1 in
            record s1 { committed = s1.current }))
  unfolding claim_dispatching_runs ◌>>=◌
  claim_parts s s' rs h =
      let t = or_else now s.clock in
      ground (
        arith,
        claim_runs_result owner t (t + duration) (claimable_runs locked t limit s.current) s,
      )

  -- The run was made from a claimable row of the database, and belongs to the claimant since.
  abbrev pub Taken : Session → Run → Type 0
  Taken s r =
      let t = or_else now s.clock in
      (row : Run) × (ClaimableRow locked t s.current row)
      × (r ≡ claimed_run owner t (t + duration) row)

  claimed_id : (t e : ℕ) (r : Run) → (claimed_run owner t e r).id ≡ r.id
  unfolding claimed_run
  claimed_id t e r = refl

  leases_stored :
      (s : Session)
      → Distinct s.current.runs
      → let t = or_else now s.clock in
        let rows = claimable_runs locked t limit s.current in
        All
          (λ r.
            LeasedUntil r.id (t + duration) (claim_runs owner t (t + duration) rows s).1.current)
          (map (claimed_run owner t (t + duration)) rows)
  unfolding claimed_run
  leases_stored s u =
      let t = or_else now s.clock in
      let rows = claimable_runs locked t limit s.current in
      All-map_of _ (claimed_run owner t (t + duration)) rows (
        claim_runs-leases owner t (t + duration) rows s (
          All-map (ClaimableRow locked t s.current) (λ r. HasRow owner t (t + duration) r.id s) rows
            (λ r h. (r, h.0)) (claimable_runs-rows locked t limit s.current u)))

  -- A claim that succeeds returns at most `limit` runs. Each comes from a row that could be claimed
  -- (dispatching or running, due, without a lease that still runs, not locked by others), now bears
  -- the claimant's lease, and its stored row is leased for the whole duration, if no two runs
  -- shared an identifier before.
  pub claim-Taken :
      (s s' : Session) (rs : List Run)
      → Distinct s.current.runs
      → claim_dispatching_runs locked owner duration limit now s ≡ (ok rs, s')
      → (length rs ≤ limit)
        × All (Taken s) rs
        × All (λ r. LeasedUntil r.id (or_else now s.clock + duration) s'.committed) rs
  claim-Taken s s' rs u h =
      let t = or_else now s.clock in
      let rows = claimable_runs locked t limit s.current in
      let (er, es) = claim_parts s s' rs h in
      rw (er, es)
        (
          omega (
            arith,
            length-map (claimed_run owner t (t + duration)) rows,
            length-claimable_runs locked t limit s.current,
          ),
          All-map_of _ (claimed_run owner t (t + duration)) rows (
              All-map _ _ rows (λ r k. (r, k, refl))
                (claimable_runs-rows locked t limit s.current u)),
          leases_stored s u,
        )

claimable_is_free :
    (locked : ℕ → Bool) (now expires : ℕ) (row : Run)
    → now < expires
    → row.lease_expires_at ≡ some expires
    → ¬ (is_claimable locked now row ≡ true)
unfolding is_claimable
claimable_is_free locked now expires row early l c = ground arith

-- A row whose lease runs until a later time cannot be claimed.
leased_row_unclaimable :
    (locked : ℕ → Bool) (now expires : ℕ) (d : Db) (i : ℕ) (row : Run)
    → now < expires
    → LeasedUntil i expires d
    → ClaimableRow locked now d row
    → i ≢ row.id
leased_row_unclaimable locked now expires d i row early (x, h, l) (k, c) e =
    let same : some x ≡ some row = sym h ∙ ap (λ j. Table.get j d.runs) e ∙ k in
    let lease : row.lease_expires_at ≡ some expires = cc in
    claimable_is_free locked now expires row early lease c

module _ (locked locked' : ℕ → Bool) (owner owner' : String) (duration duration' limit limit' : ℕ)
    (now now' : Option ℕ) where
  -- While the leases of one claim run, the next claim takes none of its runs, whoever makes it:
  -- a claim that starts from what the first one stored, at a time before the leases end, returns
  -- only runs with other identifiers, if no two runs shared one before either claim.
  pub claim-claim_disjoint :
      (s s' u u' : Session) (rs rs' : List Run)
      → Distinct s.current.runs
      → Distinct u.current.runs
      → claim_dispatching_runs locked owner duration limit now s ≡ (ok rs, s')
      → u.current ≡ s'.committed
      → or_else now' u.clock < or_else now s.clock + duration
      → claim_dispatching_runs locked' owner' duration' limit' now' u ≡ (ok rs', u')
      → All (λ r. All (λ r'. r.id ≢ r'.id) rs') rs
  claim-claim_disjoint s s' u u' rs rs' ds du h same early k =
      let expires = or_else now s.clock + duration in
      let taken = (claim-Taken locked owner duration limit now s s' rs ds h).2 in
      let taken' = (claim-Taken locked' owner' duration' limit' now' u u' rs' du k).1 in
      All-map (λ r. LeasedUntil r.id expires s'.committed) _ rs
        (λ r leased.
          All-map (Taken locked' owner' duration' limit' now' u) _ rs'
            (λ r' (row, claimable, e).
              subst (λ x. r.id ≢ x.id) (sym e)
                (subst (λ j. r.id ≢ j)
                  (sym (claimed_id locked' owner' duration' limit' now' _ _ row))
                  (leased_row_unclaimable locked' (or_else now' u.clock) expires u.current r.id row
                    early (subst (LeasedUntil r.id expires) (sym same) leased) claimable)))
            taken')
        taken
