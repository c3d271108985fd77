-- ===== src/Task/Tests/Service.antt =====
-- The theorems on sequences of requests at concrete states.
use hermes_orchestrator.Prelude.{is_blank, All, ◌≢◌, List, arith, refl, some, [], ◌∷◌}
use hermes_orchestrator.Models.Status.{RunStatus, TaskStatus}
use hermes_orchestrator.Models.Rows.{Run}
use hermes_orchestrator.Store.Table
use hermes_orchestrator.Store.Exec.{Db, request, Run-Keyed, Task-Keyed, Approval-Keyed, ◌>>=◌}
use hermes_orchestrator.Fixtures.{
  settings, library, task_in, run_in, db_with, result_or, none_locked, ended,
}
use hermes_orchestrator.Task.Terminal.{WellFormed}
use hermes_orchestrator.Task.Service.Claims.{Reach-claims_disjoint}
use hermes_orchestrator.Task.Lease.{claim_dispatching_runs}
use hermes_orchestrator.Task.Expiry.{expire_due_runs, expire_runs}
use hermes_orchestrator.Task.Service.{
  Request, claim, expire, answer, start, serve, Reach-WellFormed,
}

-- A claim, and then the timeouts.
abbrev claims : Request
claims = claim none_locked "d1" 300 5

Reach-WellFormed_example :
    WellFormed
      (request
        (answer library settings 6000 (expire "watchdog"))
        6000
        (request (answer library settings 200 claims) 200 ended.current).1).1
unfolding Table.get
Reach-WellFormed_example =
    Reach-WellFormed library settings ended.current _
      (
        (
          ((λ e. record { lease_owner = refl; lease_expires_at = refl; finished_at = refl }), tt),
          (λ r. omega arith),
        ),
        (((refl, tt), (omega arith, tt)), ((refl, tt), (omega arith, tt))),
      )
      (serve _ (expire "watchdog") 6000 (serve _ claims 200 start))

-- A run waits in a store that has seen the watchdog.
abbrev waiting : Db
waiting = db_with (task_in TaskStatus.dispatched ∷ []) (run_in RunStatus.dispatching ∷ []) []

abbrev watched : Db
watched = (request (answer library settings 50 (expire "watchdog")) 50 waiting).1

abbrev claimed_rows : List Run
claimed_rows =
    result_or (request (claim_dispatching_runs none_locked "d1" 300 5 (some 200)) 200 watched).0 []

Reach-claims_disjoint_example : All (λ (r : Run). All (λ (r' : Run). r.id ≢ r'.id) []) claimed_rows
unfolding request claim_dispatching_runs ◌>>=◌ Table.get Table.put is_blank answer expire_due_runs
    expire_runs
Reach-claims_disjoint_example =
    Reach-claims_disjoint none_locked none_locked "d1" "d2" 300 300 5 5 200 400 library settings
      waiting watched claimed_rows []
      ((((λ e. cc), tt), (λ r. omega arith)), (((refl, tt), (omega arith, tt)), (tt, tt)))
      (serve waiting (expire "watchdog") 50 start) refl (omega arith) refl
