-- ===== src/Task/Tests/Runs.antt =====
-- The theorems on leases and transitions at concrete states.
use hermes_orchestrator.Prelude.{
  ℕ, [], ◌∷◌, ◌≤◌, ◌≡◌, refl, ◌≢◌, none, some, List, [], ◌∷◌, arith, All, length, is_blank,
}
use hermes_orchestrator.Models.Status.{RunStatus, TaskStatus}
use hermes_orchestrator.Models.Rows.{Run}
use hermes_orchestrator.Store.Table
use hermes_orchestrator.Store.Exec.{
  Session, Code, Result, err, error, Run-Keyed, Task-Keyed, Approval-Keyed, ◌>>=◌,
}
use hermes_orchestrator.Fixtures.{
  settings, library, task_in, run_in, leased_run, db_with, session_of, result_or, none_locked,
  ended_run, ended,
}
use hermes_orchestrator.Task.Lease.{claim_dispatching_runs, heartbeat_run_lease, release_run_lease}
use hermes_orchestrator.Task.Lease.Claimed.{LeasedUntil}
use hermes_orchestrator.Task.Lease.Exclusive.{Taken, claim-Taken, claim-claim_disjoint}
use hermes_orchestrator.Task.Lease.Held.{HeldBy, heartbeat-HeldBy, release-HeldBy}
use hermes_orchestrator.Models.Json.{get, as_natural}
use hermes_orchestrator.Usage.Limits.{resolve_limits}
use hermes_orchestrator.Usage.Circuit.{record_run_outcome, next_circuit, opens}
use hermes_orchestrator.Usage.Ledger.{ingest_run_usage}
use hermes_orchestrator.Task.Expiry.{
  due_runs, expire_run, expire_runs, account_expired, expire_due_runs,
}
use hermes_orchestrator.Task.Expiry.Cleared.{expire-cleared}
use hermes_orchestrator.Task.Transition.{transition_run, moved_run}
use hermes_orchestrator.Task.Transition.Moves.{
  Moved, transition-Moved, transition_error, transition_terminal,
}

-- One run that waits to be claimed.
abbrev waiting : Session
waiting =
    session_of (db_with (task_in TaskStatus.dispatched ∷ []) (run_in RunStatus.dispatching ∷ []) [])

abbrev after_claim : Session
after_claim = (claim_dispatching_runs none_locked "d1" 300 5 none waiting).1

abbrev claimed_rows : List Run
claimed_rows = result_or (claim_dispatching_runs none_locked "d1" 300 5 none waiting).0 []

abbrev next_claim : Session
next_claim = session_of after_claim.committed

claim-Taken_example :
    (length claimed_rows ≤ 5)
    × All (Taken none_locked "d1" 300 5 none waiting) claimed_rows
    × All (λ r. LeasedUntil r.id 500 after_claim.committed) claimed_rows
unfolding claim_dispatching_runs ◌>>=◌ Table.get Table.put is_blank
claim-Taken_example =
    claim-Taken none_locked "d1" 300 5 none waiting after_claim claimed_rows (refl, tt) refl

claim-claim_disjoint_example : All (λ (r : Run). All (λ (r' : Run). r.id ≢ r'.id) []) claimed_rows
unfolding claim_dispatching_runs ◌>>=◌ Table.get Table.put is_blank
claim-claim_disjoint_example =
    claim-claim_disjoint none_locked none_locked "d1" "d2" 300 300 5 5 none none waiting after_claim
      next_claim (claim_dispatching_runs none_locked "d2" 300 5 none next_claim).1 claimed_rows []
      (refl, tt) (refl, tt) refl refl (omega arith) refl

abbrev leased : Session
leased = session_of (db_with (task_in TaskStatus.in_progress ∷ []) (leased_run ∷ []) [])

abbrev heartbeaten : Result Run × Session
heartbeaten = heartbeat_run_lease 7 "d1" 300 none leased

heartbeat-HeldBy_example :
    (r : Run) × (Table.get 7 leased.current.runs ≡ some r)
    × HeldBy "d1" 200 r
    × ((result_or heartbeaten.0 leased_run).lease_expires_at ≡ some 500)
    × (Table.get r.id heartbeaten.1.committed.runs ≡ some (result_or heartbeaten.0 leased_run))
unfolding heartbeat_run_lease ◌>>=◌ Table.get Table.put
heartbeat-HeldBy_example =
    heartbeat-HeldBy 7 "d1" none 300 leased heartbeaten.1 (result_or heartbeaten.0 leased_run) refl

abbrev released : Result Run × Session
released = release_run_lease 7 "d1" 900 none leased

release-HeldBy_example :
    (r : Run) × (Table.get 7 leased.current.runs ≡ some r)
    × HeldBy "d1" 200 r
    × (result_or released.0 leased_run ≡ record r {
      lease_owner = none;
      lease_acquired_at = none;
      lease_expires_at = none;
      heartbeat_at = none;
      next_attempt_at = 900;
    })
    × (Table.get r.id released.1.committed.runs ≡ some (result_or released.0 leased_run))
unfolding release_run_lease ◌>>=◌ Table.get Table.put
release-HeldBy_example =
    release-HeldBy 7 "d1" none 900 leased released.1 (result_or released.0 leased_run) refl

abbrev started : Result Run × Session
started = transition_run library settings 7 RunStatus.running "wanda" none none none waiting

transition-Moved_example :
    Moved 7 RunStatus.running none none 200 waiting.current started.1.committed
      (result_or started.0 leased_run)
unfolding transition_run ◌>>=◌ Table.get Table.put moved_run
transition-Moved_example =
    transition-Moved library settings 7 RunStatus.running "wanda" none none none waiting started.1
      (result_or started.0 leased_run) refl

transition_error_example : ended.committed ≡ ended.committed
unfolding transition_run ◌>>=◌ Table.get Table.put
transition_error_example =
    transition_error library settings 7 RunStatus.running "wanda" none none none ended ended
      (error Code.invalid_transition) refl

transition_terminal_example :
    transition_run library settings 7 RunStatus.running "wanda" none none none ended
    ≡ (err (error Code.invalid_transition), ended)
unfolding Table.get
transition_terminal_example =
    transition_terminal library settings 7 RunStatus.running "wanda" none none none ended ended_run
      refl refl

abbrev expired : Result (List ℕ) × Session
expired = expire_due_runs library settings "watchdog" (some 6000) leased

expire-cleared_example : due_runs 6000 expired.1.committed ≡ []
unfolding expire_due_runs ◌>>=◌ Table.get Table.put expire_run expire_runs account_expired
    record_run_outcome next_circuit opens resolve_limits ingest_run_usage as_natural get
expire-cleared_example =
    expire-cleared library settings "watchdog" (some 6000) leased expired.1 (7 ∷ []) (refl, tt) refl
