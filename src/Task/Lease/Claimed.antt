-- ===== src/Task/Lease/Claimed.antt =====
-- What a claim takes and how it leaves the rows (`claim_dispatching_runs`).
use hermes_orchestrator.Prelude.{
  ℕ, ◌≤◌, ◌≡◌, refl, inl, inr, subst, sym, ◌∙◌, ◌≢◌, Bool, true, String, some, List, [], ◌∷◌, arith,
  ◌==◌, ==→≡, length, map, All, All-take, All-map, length-take_le, Bool-cases,
}
use hermes_orchestrator.Models.Rows.{Run}
use hermes_orchestrator.Store.Table
use hermes_orchestrator.Store.Table.{Distinct}
use hermes_orchestrator.Store.Exec.{Db, Session, ok, Run-Keyed, ◌>>=◌}
use hermes_orchestrator.Task.Lease.{
  is_claimable, insert_run, sort_runs, claimable_runs, claimed_run, claim_run, claim_runs,
}

All-insert_run :
    (P : Run → Type 0) (r : Run) (xs : List Run) → P r → All P xs → All P (insert_run r xs)
unfolding insert_run
All-insert_run P r [] pr h = (pr, tt)
All-insert_run P r (x ∷ xs) pr h = ground (arith, All-insert_run P r xs pr h.1)

pub All-sort_runs : (P : Run → Type 0) (xs : List Run) → All P xs → All P (sort_runs xs)
unfolding sort_runs
All-sort_runs P [] h = tt
All-sort_runs P (x ∷ xs) h = All-insert_run P x (sort_runs xs) h.0 (All-sort_runs P xs h.1)

-- A row of the table that may be claimed.
abbrev pub ClaimableRow : (ℕ → Bool) → ℕ → Db → Run → Type 0
ClaimableRow locked now d r = (Table.get r.id d.runs ≡ some r) × (is_claimable locked now r ≡ true)

pub claimable_runs-rows :
    (locked : ℕ → Bool) (now limit : ℕ) (d : Db)
    → Distinct d.runs
    → All (ClaimableRow locked now d) (claimable_runs locked now limit d)
unfolding claimable_runs
claimable_runs-rows locked now limit d u = All-take (ClaimableRow locked now d) limit _ (
    All-sort_runs (ClaimableRow locked now d) _
      (Table.All-filter (is_claimable locked now) d.runs u))

pub length-claimable_runs :
    (locked : ℕ → Bool) (now limit : ℕ) (d : Db)
    → length (claimable_runs locked now limit d) ≤ limit
unfolding claimable_runs
length-claimable_runs locked now limit d = length-take_le limit _

-- The row of that run holds a lease until that time.
abbrev pub LeasedUntil : ℕ → ℕ → Db → Type 0
LeasedUntil i expires d =
    (r : Run) × (Table.get i d.runs ≡ some r) × (r.lease_expires_at ≡ some expires)

-- What the loop leaves in the rows.
module _ (owner : String) (now expires : ℕ) where
  abbrev pub HasRow : ℕ → Session → Type 0
  HasRow i s = (x : Run) × (Table.get i s.current.runs ≡ some x)

  claim_run-leases :
      (r x : Run) (s : Session)
      → Table.get r.id s.current.runs ≡ some x
      → Table.get r.id (claim_run owner now expires r s).1.current.runs
        ≡ some (claimed_run owner now expires r)
  unfolding claim_run ◌>>=◌ claimed_run
  claim_run-leases r x s h = Table.get-put_self (claimed_run owner now expires r) x s.current.runs h

  claim_run-others :
      (r : Run) (i : ℕ) (s : Session)
      → r.id ≢ i
      → Table.get i (claim_run owner now expires r s).1.current.runs ≡ Table.get i s.current.runs
  unfolding claim_run ◌>>=◌ claimed_run
  claim_run-others r i s ne = Table.get-put_ne (claimed_run owner now expires r) i s.current.runs ne

  claimed_expiry : (r : Run) → (claimed_run owner now expires r).lease_expires_at ≡ some expires
  unfolding claimed_run
  claimed_expiry r = refl

  claim_run-LeasedUntil :
      (r : Run) (i : ℕ) (s : Session)
      → LeasedUntil i expires s.current
      → LeasedUntil i expires (claim_run owner now expires r s).1.current
  claim_run-LeasedUntil r i s (x, h, l) = elim (Bool-cases (r.id == i)) [
    | inl same ↦
        subst (λ j. LeasedUntil j expires (claim_run owner now expires r s).1.current)
          (==→≡ r.id i same)
          (
            claimed_run owner now expires r,
            claim_run-leases r x s (rw (==→≡ r.id i same) h),
            claimed_expiry r,
          )
    | inr other ↦ (x, claim_run-others r i s (λ e. ground arith) ∙ h, l)
  ]

  claim_run-HasRow :
      (r : Run) (i : ℕ) (s : Session) → HasRow i s → HasRow i (claim_run owner now expires r s).1
  claim_run-HasRow r i s (x, h) = elim (Bool-cases (r.id == i)) [
    | inl same ↦
        subst (λ j. HasRow j (claim_run owner now expires r s).1) (==→≡ r.id i same)
          (claimed_run owner now expires r, claim_run-leases r x s (rw (==→≡ r.id i same) h))
    | inr other ↦ (x, claim_run-others r i s (λ e. ground arith) ∙ h)
  ]

  claim_runs_step :
      (r : Run) (rs : List Run) (s : Session)
      → (claim_runs owner now expires (r ∷ rs) s).1
        ≡ (claim_runs owner now expires rs (claim_run owner now expires r s).1).1
  unfolding claim_runs ◌>>=◌
  claim_runs_step r rs s = ground arith

  pub claim_runs_result :
      (rs : List Run) (s : Session)
      → (claim_runs owner now expires rs s).0 ≡ ok (map (claimed_run owner now expires) rs)
  unfolding claim_runs ◌>>=◌
  claim_runs_result [] s = refl
  claim_runs_result (r ∷ rs) s =
      ground (arith, claim_runs_result rs (claim_run owner now expires r s).1)

  claim_runs-LeasedUntil :
      (rs : List Run) (i : ℕ) (s : Session)
      → LeasedUntil i expires s.current
      → LeasedUntil i expires (claim_runs owner now expires rs s).1.current
  unfolding claim_runs ◌>>=◌
  claim_runs-LeasedUntil [] i s h = h
  claim_runs-LeasedUntil (r ∷ rs) i s h =
      subst (λ t. LeasedUntil i expires t.current) (sym (claim_runs_step r rs s))
        (claim_runs-LeasedUntil rs i _ (claim_run-LeasedUntil r i s h))

  -- Every row that the loop goes over is leased afterwards.
  pub claim_runs-leases :
      (rs : List Run) (s : Session)
      → All (λ r. HasRow r.id s) rs
      → All (λ r. LeasedUntil r.id expires (claim_runs owner now expires rs s).1.current) rs
  claim_runs-leases [] s h = tt
  claim_runs-leases (r ∷ rs) s h =
      let s1 = (claim_run owner now expires r s).1 in
      subst (λ t. All (λ x. LeasedUntil x.id expires t.current) (r ∷ rs))
        (sym (claim_runs_step r rs s))
        (
          claim_runs-LeasedUntil rs r.id s1
              (claimed_run owner now expires r, claim_run-leases r h.0.0 s h.0.1, claimed_expiry r),
          claim_runs-leases rs s1 (
              All-map (λ x. HasRow x.id s) (λ x. HasRow x.id s1) rs (λ x. claim_run-HasRow r x.id s)
                h.1),
        )
