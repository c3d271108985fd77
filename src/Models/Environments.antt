-- ===== src/Models/Environments.antt =====
-- The tables of the environments in models.py, the words of their status columns, and the bodies of
-- the routes of environments in schemas.py.
use hermes_orchestrator.Prelude.{ℕ, Bool, true, false, String, Option}
use hermes_orchestrator.Models.Json.{Fields}

-- The values of the column `status` of a deployment, and of an action.
pub data DeploymentStatus : Type 0 where
  active superseded expired : DeploymentStatus

pub data ActionStatus : Type 0 where
  requested applied rejected : ActionStatus

pub record EnvironmentDeployment : Type 0 where
  pub id : ℕ
  pub environment : String
  pub instance_key : String
  pub repository : String
  pub ref_kind : String
  pub ref_value : String
  pub resolved_sha : String
  pub task_id : Option ℕ
  pub allocated_port : Option ℕ
  pub expires_at : Option ℕ
  pub status : DeploymentStatus
  pub source_deployment_id : Option ℕ
  pub rollback_of_deployment_id : Option ℕ
  pub requested_by_actor_id : String
  pub approval_actor_id : Option String
  pub created_at : ℕ

pub record EnvironmentAction : Type 0 where
  pub id : ℕ
  pub action : String
  pub environment : String
  pub requested_by_actor_id : String
  pub idempotency_key : String
  pub request_hash : String
  pub request_payload : Fields
  pub status : ActionStatus
  pub deployment_id : Option ℕ
  pub previous_deployment_id : Option ℕ
  pub approval_actor_id : Option String
  pub approval_reason : Option String
  pub error_code : Option String

-- `deployment.status == "active"`
abbrev pub status_is_active : DeploymentStatus → Bool
status_is_active active = true
status_is_active superseded = false
status_is_active expired = false

-- `existing.status == "rejected"`
abbrev pub action_is_rejected : ActionStatus → Bool
action_is_rejected requested = false
action_is_rejected applied = false
action_is_rejected rejected = true

pub record EnvironmentApprovalEvidence : Type 0 where
  pub actor_id : String
  pub reason : String

-- `Literal["local", "dev"]`
pub data DeployEnvironment : Type 0 where
  local dev : DeployEnvironment

abbrev pub deploy_text : DeployEnvironment → String
deploy_text local = "local"
deploy_text dev = "dev"

-- `Literal["pre", "prod-sim", "live"]`
pub data PromotionTarget : Type 0 where
  pre prod_sim live : PromotionTarget

abbrev pub target_text : PromotionTarget → String
target_text pre = "pre"
target_text prod_sim = "prod-sim"
target_text live = "live"

pub record EnvironmentDeployCreate : Type 0 where
  pub environment : DeployEnvironment
  pub repository : String
  pub branch : String
  pub resolved_sha : String
  pub task_id : Option ℕ
  pub ttl_seconds : Option ℕ

pub record EnvironmentPromotionCreate : Type 0 where
  pub source_deployment_id : ℕ
  pub target_environment : PromotionTarget
  pub repository : String
  pub resolved_sha : String
  pub tag : Option String
  pub approval : Option EnvironmentApprovalEvidence

pub record EnvironmentRollbackCreate : Type 0 where
  pub target_deployment_id : ℕ
  pub approval : EnvironmentApprovalEvidence
