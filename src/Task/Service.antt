-- ===== src/Task/Service.antt =====
-- The operations of task_services.py as requests to one store (the routes of task_api.py, the
-- dispatcher and the watchdog), and the states that a sequence of requests reaches.
pub mod Claims
use hermes_orchestrator.Prelude.{ℕ, Bool, String, Option, some}
use hermes_orchestrator.Models.Status.{RunStatus}
use hermes_orchestrator.Models.Settings.{Settings, TextLibrary}
use hermes_orchestrator.Store.Exec.{Db, Exec, pure, request, ◌>>◌}
use hermes_orchestrator.Task.Create.{TaskCreate, create_task}
use hermes_orchestrator.Task.Comment.{add_comment}
use hermes_orchestrator.Task.Dispatch.{DispatchCommand, dispatch_task}
use hermes_orchestrator.Task.Lease.{claim_dispatching_runs, heartbeat_run_lease, release_run_lease}
use hermes_orchestrator.Task.Transition.{transition_run}
use hermes_orchestrator.Task.Approval.{Decision, resolve_approval}
use hermes_orchestrator.Task.Cancel.{cancel_task}
use hermes_orchestrator.Task.Expiry.{expire_due_runs}
use hermes_orchestrator.Task.Handoff.{handoff_task}
use hermes_orchestrator.Task.Terminal.Handoffs.{handoff_task-WellFormed}
use hermes_orchestrator.Models.Json.{Fields}
use hermes_orchestrator.Store.Keeps.{Keeps, Keeps-request, Keeps-bind, Keeps-pure}
use hermes_orchestrator.Task.Terminal.{WellFormed}
use hermes_orchestrator.Task.Terminal.Additions.{
  create_task-WellFormed, add_comment-WellFormed, dispatch_task-WellFormed,
}
use hermes_orchestrator.Task.Terminal.Leases.{
  claim_dispatching_runs-WellFormed, heartbeat-WellFormed, release-WellFormed,
}
use hermes_orchestrator.Task.Terminal.Operations.{
  transition_run-WellFormed, expire_due_runs-WellFormed,
}
use hermes_orchestrator.Task.Terminal.Requests.{resolve_approval-WellFormed, cancel_task-WellFormed}

-- A request by one of the clients, with its arguments.
pub data Request : Type 0 where
  create : String → String → TaskCreate → Request
  comment : ℕ → String → String → String → Request
  dispatch : ℕ → String → String → DispatchCommand → Request
  claim : (ℕ → Bool) → String → ℕ → ℕ → Request
  heartbeat : ℕ → String → ℕ → Request
  release : ℕ → String → ℕ → Request
  transition : ℕ → RunStatus → String → Option String → Option String → Request
  resolve : ℕ → String → String → Decision → String → Request
  cancel : ℕ → String → String → String → Request
  expire : String → Request
  hand_over : ℕ → String → String → Fields → ℕ → Request

-- The operation that a request runs, at a time.
unfoldable pub answer : TextLibrary → Settings → ℕ → Request → Exec Unit
answer lib settings now (create actor_id key p) = create_task lib actor_id key p >> pure tt
answer lib settings now (comment task_id actor_id key body) =
    add_comment task_id actor_id key body >> pure tt
answer lib settings now (dispatch task_id actor_id key p) =
    dispatch_task lib settings task_id actor_id key p (some now) >> pure tt
answer lib settings now (claim locked owner duration limit) =
    claim_dispatching_runs locked owner duration limit (some now) >> pure tt
answer lib settings now (heartbeat run_id owner duration) =
    heartbeat_run_lease run_id owner duration (some now) >> pure tt
answer lib settings now (release run_id owner next_attempt_at) =
    release_run_lease run_id owner next_attempt_at (some now) >> pure tt
answer lib settings now (transition run_id status actor_id code summary) =
    transition_run lib settings run_id status actor_id code summary (some now) >> pure tt
answer lib settings now (resolve run_id actor_id key decision reason) =
    resolve_approval lib settings run_id actor_id key decision reason (some now) >> pure tt
answer lib settings now (cancel task_id actor_id key reason) =
    cancel_task lib settings task_id actor_id key reason (some now) >> pure tt
answer lib settings now (expire actor_id) =
    expire_due_runs lib settings actor_id (some now) >> pure tt
answer lib settings now (hand_over task_id actor_id key given ttl) =
    handoff_task lib task_id actor_id key given ttl (some now) >> pure tt

-- The stored states that requests reach, each in a session of its own.
pub data Reach (lib : TextLibrary) (settings : Settings) (d : Db) : Db → Type 0 where
  start : Reach lib settings d d
  serve :
      (d' : Db) (q : Request) (now : ℕ)
      → Reach lib settings d d'
      → Reach lib settings d (request (answer lib settings now q) now d').1

Keeps-then : {A : Type 0} {P : Db → Type 0} {m : Exec A} → Keeps P m → Keeps P (m >> pure tt)
Keeps-then km = Keeps-bind _ _ km (λ _. Keeps-pure tt)

answer-WellFormed :
    (lib : TextLibrary) (settings : Settings) (now : ℕ) (q : Request)
    → Keeps WellFormed (answer lib settings now q)
unfolding answer
answer-WellFormed lib settings now (create actor_id key p) =
    Keeps-then (create_task-WellFormed lib actor_id key p)
answer-WellFormed lib settings now (comment task_id actor_id key body) =
    Keeps-then (add_comment-WellFormed task_id actor_id key body)
answer-WellFormed lib settings now (dispatch task_id actor_id key p) =
    Keeps-then (dispatch_task-WellFormed lib settings task_id actor_id key p (some now))
answer-WellFormed lib settings now (claim locked owner duration limit) =
    Keeps-then (claim_dispatching_runs-WellFormed locked owner duration limit (some now))
answer-WellFormed lib settings now (heartbeat run_id owner duration) =
    Keeps-then (heartbeat-WellFormed run_id owner duration (some now))
answer-WellFormed lib settings now (release run_id owner next_attempt_at) =
    Keeps-then (release-WellFormed run_id owner next_attempt_at (some now))
answer-WellFormed lib settings now (transition run_id status actor_id code summary) =
    Keeps-then
      (transition_run-WellFormed lib settings run_id status actor_id code summary (some now))
answer-WellFormed lib settings now (resolve run_id actor_id key decision reason) =
    Keeps-then
      (resolve_approval-WellFormed lib settings run_id actor_id key decision reason (some now))
answer-WellFormed lib settings now (cancel task_id actor_id key reason) =
    Keeps-then (cancel_task-WellFormed lib settings task_id actor_id key reason (some now))
answer-WellFormed lib settings now (expire actor_id) =
    Keeps-then (expire_due_runs-WellFormed lib settings actor_id (some now))
answer-WellFormed lib settings now (hand_over task_id actor_id key given ttl) =
    Keeps-then (handoff_task-WellFormed lib actor_id key given ttl (some now) task_id)

-- Whatever the requests are, and whether they succeed or fail, a stored run whose status is terminal
-- holds no lease and has its end time, no run has two entries in the ledger, and the identifiers of
-- the runs, and those of the approvals, are distinct and below the next new one, if all that is so in
-- the first state.
pub Reach-WellFormed :
    (lib : TextLibrary) (settings : Settings) (d d' : Db)
    → WellFormed d
    → Reach lib settings d d'
    → WellFormed d'
Reach-WellFormed lib settings d _ h start = h
Reach-WellFormed lib settings d _ h (serve d' q now r) =
    Keeps-request (answer lib settings now q) now d' (answer-WellFormed lib settings now q)
      (Reach-WellFormed lib settings d d' h r)
