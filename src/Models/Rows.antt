-- ===== src/Models/Rows.antt =====
-- The tables of models.py that the task, usage and policy services read and write. Times are
-- instants in microseconds and identifiers are numbers; `updated_at`, which no service reads, is
-- left out.
use hermes_orchestrator.Prelude.{ℕ, Bool, String, Option, List}
use hermes_orchestrator.Models.Json.{Fields}
use hermes_orchestrator.Models.Status.{
  RunStatus, TaskStatus, ApprovalStatus, CircuitState, CostStatus, QuotaStatus,
}

pub record Agent : Type 0 where
  pub id : ℕ
  pub slug : String
  pub role : String
  pub description : String
  pub owner_actor_id : String
  pub desired_state : String
  pub policy_set : Fields
  pub capabilities : List String
  pub secret_refs : List String

pub record AgentInstance : Type 0 where
  pub id : ℕ
  pub agent_id : ℕ
  pub container_ref : Option String
  pub hermes_version : Option String
  pub internal_endpoint : Option String
  pub config_revision : Option String
  pub health : String
  pub last_heartbeat_at : Option ℕ
  pub reconciliation_state : String

pub record ExecutionProfile : Type 0 where
  pub id : String
  pub provider : String
  pub model : String
  pub reasoning_effort : String
  pub enabled : Bool

pub record CommunicationEdge : Type 0 where
  pub id : ℕ
  pub source_agent_id : ℕ
  pub target_agent_id : ℕ
  pub task_classes : List String
  pub scopes : List String
  pub expires_at : Option ℕ
  pub approved_by_actor_id : String

pub record AuditEvent : Type 0 where
  pub actor_id : String
  pub event_type : String
  pub aggregate_type : String
  pub aggregate_id : ℕ
  pub payload : Fields

pub record Task : Type 0 where
  pub id : ℕ
  pub operation_id : ℕ
  pub parent_task_id : Option ℕ
  pub workflow_ref : Option String
  pub requester_actor_id : String
  pub assignee_actor_id : Option String
  pub reviewer_actor_id : Option String
  pub priority : ℕ
  pub status : TaskStatus
  pub idempotency_key : String
  pub request_hash : String
  pub objective : String
  pub acceptance_criteria : List String
  pub budget : Fields
  pub references : List String
  pub independent_review : Bool
  pub deadline_at : Option ℕ
  pub cancel_idempotency_key : Option String

pub record TaskDependency : Type 0 where
  pub task_id : ℕ
  pub depends_on_task_id : ℕ
  pub required_status : TaskStatus

pub record TaskComment : Type 0 where
  pub id : ℕ
  pub task_id : ℕ
  pub actor_id : String
  pub body : String
  pub idempotency_key : String

pub record Run : Type 0 where
  pub id : ℕ
  pub task_id : ℕ
  pub operation_id : ℕ
  pub attempt_number : ℕ
  pub worker_actor_id : String
  pub requested_profile_id : String
  pub effective_profile_id : Option String
  pub dispatch_idempotency_key : String
  pub dispatch_hash : String
  pub status : RunStatus
  pub dispatch_attempts : ℕ
  pub next_attempt_at : ℕ
  pub lease_owner : Option String
  pub lease_acquired_at : Option ℕ
  pub lease_expires_at : Option ℕ
  pub heartbeat_at : Option ℕ
  pub timeout_at : ℕ
  pub started_at : Option ℕ
  pub finished_at : Option ℕ
  pub error_code : Option String
  pub summary : Option String
  pub worker_run_id : Option String
  pub requested_runtime : Fields
  pub observed_runtime : Fields
  pub runtime_fallback : Fields
  pub usage_snapshot : Fields
  pub error_details : Fields
  pub created_at : ℕ

pub record Approval : Type 0 where
  pub id : ℕ
  pub run_id : ℕ
  pub action : String
  pub context_snapshot : Fields
  pub status : ApprovalStatus
  pub requested_by_actor_id : String
  pub expires_at : ℕ
  pub decided_by_actor_id : Option String
  pub decision_reason : Option String
  pub decision_idempotency_key : Option String
  pub decided_at : Option ℕ
  pub created_at : ℕ

-- Costs are in millionths, the scale of the columns.
pub record UsageLedger : Type 0 where
  pub id : ℕ
  pub run_id : ℕ
  pub payload_hash : String
  pub operation_id : ℕ
  pub task_id : ℕ
  pub parent_run_id : Option ℕ
  pub project_id : String
  pub category : String
  pub requesting_agent_id : String
  pub executing_agent_id : String
  pub requested_profile : String
  pub effective_profile : Option String
  pub requested_model : Option String
  pub requested_provider : Option String
  pub requested_reasoning_effort : Option String
  pub model : Option String
  pub provider : Option String
  pub reasoning_effort : Option String
  pub runtime_fallback : Fields
  pub input_tokens : Option ℕ
  pub output_tokens : Option ℕ
  pub reasoning_tokens : Option ℕ
  pub cache_read_tokens : Option ℕ
  pub cache_write_tokens : Option ℕ
  pub api_calls : Option ℕ
  pub estimated_cost : Option ℕ
  pub actual_cost : Option ℕ
  pub currency : Option String
  pub cost_status : CostStatus
  pub cost_source : Option String
  pub quota_status : QuotaStatus
  pub quota_reset_at : Option ℕ
  pub started_at : Option ℕ
  pub finished_at : Option ℕ
  pub duration_ms : Option ℕ
  pub outcome : RunStatus
  pub retry_number : ℕ
  pub created_at : ℕ

pub record Budget : Type 0 where
  pub id : ℕ
  pub scope_type : String
  pub scope_key : String
  pub window_seconds : ℕ
  pub soft_token_limit : Option ℕ
  pub hard_token_limit : Option ℕ
  pub max_concurrent_runs : Option ℕ
  pub max_fan_out : Option ℕ
  pub max_retries : Option ℕ
  pub circuit_failure_threshold : Option ℕ
  pub circuit_cooldown_seconds : Option ℕ
  pub enabled : Bool

pub record CircuitBreaker : Type 0 where
  pub id : ℕ
  pub worker_actor_id : String
  pub profile_id : String
  pub state : CircuitState
  pub consecutive_failures : ℕ
  pub last_error_code : Option String
  pub opened_at : Option ℕ
  pub reset_eligible_at : Option ℕ
  pub reset_by_actor_id : Option String
  pub reset_reason : Option String
