-- ===== src/Store/Exec.antt =====
-- Actions on a session: what a service function reads and writes, its commits and what it raises.
-- A raise leaves the uncommitted changes in the session; closing the session drops them
-- (`get_session` of database.py), so that a request's lasting effect is `committed`.
use hermes_orchestrator.Prelude.{
  ℕ, suc, Bool, true, false, String, Option, none, some, List, [], ◌∷◌, ◌++◌, or_else,
}
use hermes_orchestrator.Models.Rows.{
  Agent, AgentInstance, ExecutionProfile, CommunicationEdge, AuditEvent, Task, TaskDependency,
  TaskComment, Run, Approval, UsageLedger, Budget, CircuitBreaker,
}
use hermes_orchestrator.Models.Environments.{EnvironmentDeployment, EnvironmentAction}
use hermes_orchestrator.Models.Requests.{AgentRequestRecord}
use hermes_orchestrator.Store.Table.{Keyed, put}

pub record Db : Type 0 where
  pub agents : List Agent
  pub agent_instances : List AgentInstance
  pub execution_profiles : List ExecutionProfile
  pub communication_edges : List CommunicationEdge
  pub audit_events : List AuditEvent
  pub tasks : List Task
  pub task_dependencies : List TaskDependency
  pub task_comments : List TaskComment
  pub runs : List Run
  pub approvals : List Approval
  pub usage_ledger : List UsageLedger
  pub budgets : List Budget
  pub circuit_breakers : List CircuitBreaker
  pub environment_deployments : List EnvironmentDeployment
  pub environment_actions : List EnvironmentAction
  pub agent_requests : List AgentRequestRecord
  -- the supply of `uuid4`, which returns what it never returned before
  pub next_id : ℕ

-- `clock` is what `utc_now` reads.
pub record Session : Type 0 where
  pub current : Db
  pub committed : Db
  pub clock : ℕ

-- The `code` of a `LifecycleError` or of a `ControlViolation`.
pub data Code : Type 0 where
  not_found invalid_lease_duration dispatch_lease_owner_mismatch dispatch_lease_expired : Code
  dispatch_lease_inactive invalid_lease_owner invalid_claim_limit idempotency_conflict : Code
  dependency_not_found invalid_transition self_review_denied dependency_unmet : Code
  run_already_active active_run_not_found worker_mismatch invalid_handoff : Code
  already_cancelled approval_not_found reviewer_mismatch handoff_not_terminal : Code
  approval_expired usage_ingest_conflict execution_profile_unavailable : Code
  execution_profile_denied reasoning_effort_denied circuit_open quota_exhausted : Code
  retry_limit_exceeded fan_out_limit_exceeded concurrency_limit_exceeded : Code
  budget_hard_exceeded : Code

-- The text of a code, as it is written into payloads and responses.
pub code_text : Code → String
code_text Code.not_found = "not_found"
code_text Code.invalid_lease_duration = "invalid_lease_duration"
code_text Code.dispatch_lease_owner_mismatch = "dispatch_lease_owner_mismatch"
code_text Code.dispatch_lease_expired = "dispatch_lease_expired"
code_text Code.dispatch_lease_inactive = "dispatch_lease_inactive"
code_text Code.invalid_lease_owner = "invalid_lease_owner"
code_text Code.invalid_claim_limit = "invalid_claim_limit"
code_text Code.idempotency_conflict = "idempotency_conflict"
code_text Code.dependency_not_found = "dependency_not_found"
code_text Code.invalid_transition = "invalid_transition"
code_text Code.self_review_denied = "self_review_denied"
code_text Code.dependency_unmet = "dependency_unmet"
code_text Code.run_already_active = "run_already_active"
code_text Code.active_run_not_found = "active_run_not_found"
code_text Code.worker_mismatch = "worker_mismatch"
code_text Code.invalid_handoff = "invalid_handoff"
code_text Code.already_cancelled = "already_cancelled"
code_text Code.approval_not_found = "approval_not_found"
code_text Code.reviewer_mismatch = "reviewer_mismatch"
code_text Code.handoff_not_terminal = "handoff_not_terminal"
code_text Code.approval_expired = "approval_expired"
code_text Code.usage_ingest_conflict = "usage_ingest_conflict"
code_text Code.execution_profile_unavailable = "execution_profile_unavailable"
code_text Code.execution_profile_denied = "execution_profile_denied"
code_text Code.reasoning_effort_denied = "reasoning_effort_denied"
code_text Code.circuit_open = "circuit_open"
code_text Code.quota_exhausted = "quota_exhausted"
code_text Code.retry_limit_exceeded = "retry_limit_exceeded"
code_text Code.fan_out_limit_exceeded = "fan_out_limit_exceeded"
code_text Code.concurrency_limit_exceeded = "concurrency_limit_exceeded"
code_text Code.budget_hard_exceeded = "budget_hard_exceeded"

-- `integrity` is SQLAlchemy's `IntegrityError`: a flush met a unique key that is taken.
pub data Exception : Type 0 where
  lifecycle : Code → ℕ → Option ℕ → Exception
  control : Code → ℕ → Option ℕ → Exception
  integrity : Exception
  -- `ValueError` of `uuid.UUID`
  value_error : Exception
  -- `EnvironmentError`, with its code and its HTTP status
  environment : String → ℕ → Exception
  -- `AgentRequestLifecycleError` and `IdempotencyConflictError` of services.py
  agent_request : String → ℕ → Exception
  agent_conflict : Exception
  -- `ProvisioningError`, with its code, its detail and its HTTP status
  provisioning : String → String → ℕ → Exception

pub data Result (A : Type 0) : Type 0 where
  ok : A → Result A
  err : Exception → Result A

abbrev pub Exec : Type 0 → Type 0
Exec A = Session → Result A × Session

module _ {A : Type 0} where
  pub pure : A → Exec A
  pure a s = (ok a, s)

  pub raise : Exception → Exec A
  raise e s = (err e, s)

  pub gets : (Db → A) → Exec A
  gets f s = (ok (f s.current), s)

  -- `x if x is not None else raise e`
  pub or_raise : Option A → Exception → Exec A
  or_raise none e s = (err e, s)
  or_raise (some a) e s = (ok a, s)

pub modify : (Db → Db) → Exec Unit
modify f s = (ok tt, record s { current = f s.current })

-- `session.commit()`
pub commit : Exec Unit
commit s = (ok tt, record s { committed = s.current })

-- `now or utc_now()`
pub effective_time : Option ℕ → Exec ℕ
effective_time now s = (ok (or_else now s.clock), s)

-- `if c: raise e`
pub raise_if : Bool → Exception → Exec Unit
raise_if true e s = (err e, s)
raise_if false e s = (ok tt, s)

pub when : Bool → Exec Unit → Exec Unit
when true m s = m s
when false m s = (ok tt, s)

-- A new primary key.
pub uuid4 : Exec ℕ
uuid4 s = (
  ok s.current.next_id,
  record s { current = record s.current { next_id = suc s.current.next_id } },
)

abbrev pub lift_result : {A B : Type 0} → Result A → (A → Exec B) → Exec B
lift_result (ok a) f s = f a s
lift_result (err e) f s = (err e, s)

-- `session.add` of a new row and the flush that gives it its primary key.
pub add_row : (ℕ → Db → Db) → Exec ℕ
add_row f s =
    let id = s.current.next_id in
    (ok id, record s { current = f id (record s.current { next_id = suc id }) })

infixl 5 ◌>>=◌ ◌>>◌
-- Opening this opens the actions above too.
unfoldable pub ◌>>=◌ : {A B : Type 0} → Exec A → (A → Exec B) → Exec B
unfolding pure raise gets or_raise modify commit effective_time raise_if when uuid4 add_row
◌>>=◌ m f s = let (r, s') = m s in lift_result r f s'

abbrev pub ◌>>◌ : {A B : Type 0} → Exec A → Exec B → Exec B
m >> n = m >>= λ _. n

abbrev pub error : Code → Exception
error c = Exception.lifecycle c 409 none

instance abbrev pub Task-Keyed : Keyed Task
Task-Keyed = record { key = λ t. t.id }

instance abbrev pub Run-Keyed : Keyed Run
Run-Keyed = record { key = λ r. r.id }

instance abbrev pub Approval-Keyed : Keyed Approval
Approval-Keyed = record { key = λ a. a.id }

instance abbrev pub EnvironmentDeployment-Keyed : Keyed EnvironmentDeployment
EnvironmentDeployment-Keyed = record { key = λ d. d.id }

instance abbrev pub EnvironmentAction-Keyed : Keyed EnvironmentAction
EnvironmentAction-Keyed = record { key = λ a. a.id }

instance abbrev pub Agent-Keyed : Keyed Agent
Agent-Keyed = record { key = λ a. a.id }

instance abbrev pub AgentInstance-Keyed : Keyed AgentInstance
AgentInstance-Keyed = record { key = λ i. i.id }

instance abbrev pub AgentRequestRecord-Keyed : Keyed AgentRequestRecord
AgentRequestRecord-Keyed = record { key = λ r. r.id }

instance abbrev pub CircuitBreaker-Keyed : Keyed CircuitBreaker
CircuitBreaker-Keyed = record { key = λ c. c.id }

-- The flush of a changed object, by the table that it belongs to.
abbrev pub save_task : Task → Exec Unit
save_task t = modify λ d. record d { tasks = put t d.tasks }

abbrev pub save_run : Run → Exec Unit
save_run r = modify λ d. record d { runs = put r d.runs }

abbrev pub save_approval : Approval → Exec Unit
save_approval a = modify λ d. record d { approvals = put a d.approvals }

abbrev pub save_circuit : CircuitBreaker → Exec Unit
save_circuit c = modify λ d. record d { circuit_breakers = put c d.circuit_breakers }

abbrev pub save_deployment : EnvironmentDeployment → Exec Unit
save_deployment e =
    modify λ d. record d { environment_deployments = put e d.environment_deployments }

abbrev pub save_action : EnvironmentAction → Exec Unit
save_action a = modify λ d. record d { environment_actions = put a d.environment_actions }

abbrev pub save_agent : Agent → Exec Unit
save_agent a = modify λ d. record d { agents = put a d.agents }

abbrev pub save_instance : AgentInstance → Exec Unit
save_instance i = modify λ d. record d { agent_instances = put i d.agent_instances }

abbrev pub save_request : AgentRequestRecord → Exec Unit
save_request r = modify λ d. record d { agent_requests = put r d.agent_requests }

-- `session.add` of an audit event
abbrev pub add_audit : AuditEvent → Exec Unit
add_audit e = modify λ d. record d { audit_events = d.audit_events ++ e ∷ [] }

-- What a request leaves behind: its session begins at the stored state and is closed at the end.
unfoldable pub request : {A : Type 0} → Exec A → ℕ → Db → Result A × Db
request m now d =
    let (r, s) = m (record { current = d; committed = d; clock = now }) in (r, s.committed)
