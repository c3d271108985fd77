-- ===== src/Environments/Rollback.antt =====
-- `rollback_environment` of environment_services.py.
use hermes_orchestrator.Prelude.{
  not, String, Option, none, some, [], ◌∷◌, str_eq, str_in, if◌then◌else◌,
}
use hermes_orchestrator.Models.Json.{Fields, end, field, text, uuid, object, opt_text}
use hermes_orchestrator.Models.Environments.{
  EnvironmentDeployment, EnvironmentAction, EnvironmentRollbackCreate,
}
use hermes_orchestrator.Models.Settings.{Settings, TextLibrary}
use hermes_orchestrator.Store.Table
use hermes_orchestrator.Store.Exec.{
  Exec, gets, save_action, EnvironmentDeployment-Keyed, ◌>>=◌, ◌>>◌,
}
use hermes_orchestrator.Environments.Action.{
  EnvironmentResult, Command, begin_action, unless_replayed, reject_if, or_reject, approve,
}
use hermes_orchestrator.Environments.Install.{Draft, current_of, replace, finish}
use hermes_orchestrator.Environments.Promote.{approval_fields}

-- `body.model_dump(mode="json") | {"environment": environment}`
rollback_payload : String → EnvironmentRollbackCreate → Fields
unfolding approval_fields
rollback_payload environment b = field "target_deployment_id" (uuid b.target_deployment_id) (
    field "approval" (object (approval_fields b.approval))
      (field "environment" (text environment) end))

-- The target, where it is of the environment.
unfoldable pub rollback_target :
    String → Option EnvironmentDeployment → Option EnvironmentDeployment
rollback_target environment none = none
rollback_target environment (some d) = if str_eq d.environment environment then some d else none

unfoldable pub rollback_draft :
    String → String → EnvironmentDeployment → EnvironmentDeployment → Option String → Draft
rollback_draft environment actor_id target current approval_actor_id = record {
  environment = environment;
  instance_key = "shared";
  repository = target.repository;
  ref_kind = target.ref_kind;
  ref_value = target.ref_value;
  resolved_sha = target.resolved_sha;
  task_id = none;
  allocated_port = none;
  expires_at = none;
  source_deployment_id = target.source_deployment_id;
  rollback_of_deployment_id = some current.id;
  requested_by_actor_id = actor_id;
  approval_actor_id = approval_actor_id;
}

unfoldable pub rolled_back_payload : EnvironmentDeployment → EnvironmentDeployment → Draft → Fields
rolled_back_payload target current draft = field "environment" (text draft.environment) (
    field "from" (uuid current.id) (
      field "candidate" (uuid target.id) (
        field "resolved_sha" (text target.resolved_sha)
          (field "approved_by" (opt_text draft.approval_actor_id) end))))

unfoldable pub rollback_to :
    String
    → String
    → EnvironmentDeployment
    → EnvironmentDeployment
    → EnvironmentAction
    → Exec EnvironmentResult
unfolding rollback_draft rolled_back_payload
rollback_to environment actor_id target current approved = do
  save_action approved
  let draft = rollback_draft environment actor_id target current approved.approval_actor_id
  deployment ← replace (some current) draft
  finish approved actor_id "environment.rolled_back" (some current)
      (rolled_back_payload target current draft) deployment

unfoldable pub rollback_new :
    Settings
    → String
    → EnvironmentRollbackCreate
    → String
    → EnvironmentAction
    → Exec EnvironmentResult
unfolding rollback_target rollback_to
rollback_new settings environment body actor_id action = do
  reject_if (not (str_in environment ("pre" ∷ "prod-sim" ∷ []))) action actor_id
      "rollback_environment_denied" 403
  row ← gets (λ d. Table.get body.target_deployment_id d.environment_deployments)
  running ← gets (current_of environment "shared")
  target ←
      or_reject (rollback_target environment row) action actor_id "rollback_target_not_found" 404
  current ← or_reject running action actor_id "rollback_target_not_found" 404
  approved ←
      or_reject
        (approve settings action actor_id (some body.approval) (str_eq environment "prod-sim"))
        action actor_id "independent_approval_required" 403
  rollback_to environment actor_id target current approved

unfoldable pub rollback_command : String → EnvironmentRollbackCreate → String → String → Command
unfolding rollback_payload
rollback_command environment body actor_id idempotency_key = record {
  action = "rollback";
  environment = environment;
  actor_id = actor_id;
  idempotency_key = idempotency_key;
  payload = rollback_payload environment body;
}

unfoldable pub rollback_environment :
    TextLibrary
    → Settings
    → String
    → EnvironmentRollbackCreate
    → String
    → String
    → Exec EnvironmentResult
unfolding rollback_new rollback_command
rollback_environment lib settings environment body actor_id idempotency_key = do
  begun ← begin_action lib (rollback_command environment body actor_id idempotency_key)
  unless_replayed (rollback_new settings environment body actor_id) begun
