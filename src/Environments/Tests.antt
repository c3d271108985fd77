-- ===== src/Environments/Tests.antt =====
-- The theorems on the environments at concrete states.
use hermes_orchestrator.Prelude.{
  ℕ, ◌≤◌, ◌<◌, ◌≡◌, refl, arith, none, some, List, [], ◌∷◌, count, true,
}
use hermes_orchestrator.Models.Environments.{
  EnvironmentDeployment, EnvironmentDeployCreate, EnvironmentPromotionCreate,
  EnvironmentRollbackCreate, EnvironmentApprovalEvidence, DeploymentStatus, DeployEnvironment,
  PromotionTarget,
}
use hermes_orchestrator.Store.Table
use hermes_orchestrator.Store.Exec.{
  Db, Session, Result, Exception, request, ◌>>=◌, EnvironmentDeployment-Keyed,
}
use hermes_orchestrator.Fixtures.{settings, library, db_with, session_of, result_or}
use hermes_orchestrator.Policy.Permissions.{actor_is_allowed, role_allows}
use hermes_orchestrator.Environments.Action.{
  EnvironmentResult, begin_action, replay_or_begin, insert_action, action_by_key, unless_replayed,
  reject_if, or_reject, reject, approve, may_approve, audit,
}
use hermes_orchestrator.Environments.Install.{
  current_of, newest, is_current, replace, add_deployment, finish,
}
use hermes_orchestrator.Environments.Deploy.{free_port, holds_port}
use hermes_orchestrator.Environments.Promote.{
  promote_environment, promote_new, promote_from, promotion_command, promotion_source, ref_differs,
  promoted_ref,
}
use hermes_orchestrator.Environments.Rollback.{
  rollback_environment, rollback_new, rollback_to, rollback_command, rollback_target,
}
use hermes_orchestrator.Environments.Ports.{LeastFree, free_port-LeastFree}
use hermes_orchestrator.Environments.Governed.{Governed}
use hermes_orchestrator.Environments.Service.{
  deploy, promote, start, serve, handle, Serves-Governed,
}
use hermes_orchestrator.Environments.Approved.Promotion.{Promoted, promote-Promoted}
use hermes_orchestrator.Environments.Approved.Reversal.{RolledBack, rollback-RolledBack}
use hermes_orchestrator.Environments.Refused.{handle_error}

abbrev dev_row : EnvironmentDeployment
dev_row = record {
  id = 50;
  environment = "dev";
  instance_key = "shared";
  repository = "org/app";
  ref_kind = "branch";
  ref_value = "main";
  resolved_sha = "abc";
  task_id = none;
  allocated_port = none;
  expires_at = none;
  status = DeploymentStatus.active;
  source_deployment_id = none;
  rollback_of_deployment_id = none;
  requested_by_actor_id = "ana";
  approval_actor_id = none;
  created_at = 10;
}

abbrev pre_row : EnvironmentDeployment
pre_row = record dev_row {
  id = 51;
  environment = "pre";
  ref_kind = "sha";
  ref_value = "abc";
  source_deployment_id = some 50;
}

abbrev env_db : List EnvironmentDeployment → Db
env_db t = record (db_with [] [] []) { environment_deployments = t }

abbrev oscar : EnvironmentApprovalEvidence
oscar = record { actor_id = "oscar"; reason = "reviewed" }

abbrev promotion : PromotionTarget → EnvironmentPromotionCreate
promotion target = record {
  source_deployment_id = 50;
  target_environment = target;
  repository = "org/app";
  resolved_sha = "abc";
  tag = none;
  approval = some oscar;
}

abbrev no_result : EnvironmentResult
no_result = record { deployment = dev_row; replayed = true }

abbrev promoted : Result EnvironmentResult × Session
promoted =
    promote_environment library settings (promotion PromotionTarget.pre) "ana" "key"
      (session_of (env_db (dev_row ∷ [])))

promote-Promoted_example :
    Promoted settings
      (promotion PromotionTarget.pre)
      "ana"
      (dev_row ∷ [])
      (result_or promoted.0 no_result).deployment
unfolding promote_environment promote_new promote_from begin_action replay_or_begin insert_action
    action_by_key unless_replayed ◌>>=◌ reject_if or_reject approve may_approve promoted_ref replace
    add_deployment finish promotion_source ref_differs Table.get actor_is_allowed role_allows
    current_of newest is_current promotion_command
promote-Promoted_example =
    promote-Promoted library settings (promotion PromotionTarget.pre) "ana" "key"
      (session_of (env_db (dev_row ∷ []))) promoted.1 (result_or promoted.0 no_result) refl refl

abbrev reversal : EnvironmentRollbackCreate
reversal = record { target_deployment_id = 51; approval = oscar }

abbrev rolled_back : Result EnvironmentResult × Session
rolled_back =
    rollback_environment library settings "pre" reversal "ana" "key"
      (session_of (env_db (dev_row ∷ pre_row ∷ [])))

rollback-RolledBack_example :
    RolledBack settings "pre" reversal "ana"
      (env_db (dev_row ∷ pre_row ∷ []))
      (result_or rolled_back.0 no_result).deployment
unfolding rollback_environment rollback_new rollback_to begin_action replay_or_begin insert_action
    action_by_key unless_replayed ◌>>=◌ reject_if or_reject approve may_approve replace
    add_deployment finish rollback_target Table.get actor_is_allowed role_allows current_of newest
    is_current rollback_command
rollback-RolledBack_example =
    rollback-RolledBack library settings "pre" reversal "ana" "key"
      (session_of (env_db (dev_row ∷ pre_row ∷ []))) rolled_back.1
      (result_or rolled_back.0 no_result) refl refl

handle_error_example :
    (request
      (handle library settings "ana" "key" (promote (promotion PromotionTarget.live)))
      200
      (env_db (dev_row ∷ []))).1.environment_deployments
    ≡ dev_row ∷ []
unfolding request handle promote_environment promote_new begin_action replay_or_begin insert_action
    action_by_key unless_replayed ◌>>=◌ reject_if reject audit promotion_command
handle_error_example =
    handle_error library settings "ana" "key" (promote (promotion PromotionTarget.live)) 200
      (env_db (dev_row ∷ [])) (Exception.environment "live_environment_denied" 403) refl refl

abbrev dev_body : EnvironmentDeployCreate
dev_body = record {
  environment = DeployEnvironment.dev;
  repository = "org/app";
  branch = "main";
  resolved_sha = "abc";
  task_id = none;
  ttl_seconds = none;
}

Serves-Governed_example :
    Governed (request (handle library settings "ana" "key" (deploy dev_body)) 200 (env_db [])).1
Serves-Governed_example =
    Serves-Governed library settings (env_db []) _
      (record {
        fresh = (tt, tt);
        one = λ environment instance_key. omega arith;
        ports = λ port. omega arith;
        lineage = tt;
      })
      (serve (env_db []) "ana" "key" (deploy dev_body) 200 start)

free_port-LeastFree_example :
    ((port : ℕ) → free_port settings (env_db []) ≡ some port → LeastFree [] 22000 22002 port)
    × (free_port settings (env_db []) ≡ none
        → (port : ℕ) → 22000 ≤ port
        → port ≤ 22001
        → 0 < count (holds_port port) [])
free_port-LeastFree_example = free_port-LeastFree settings (env_db [])
