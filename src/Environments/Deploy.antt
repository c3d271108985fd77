-- ===== src/Environments/Deploy.antt =====
-- `deploy_environment` and `expire_local` of environment_services.py.
use hermes_orchestrator.Prelude.{
  ℕ, zero, suc, ◌+◌, ◌-◌, Bool, false, ◌||◌, ◌&&◌, not, String, Option, none, some, List, [], ◌∷◌,
  map, str_eq, str_in, leb, ltb, ◌==◌, is_some, some_and, if◌then◌else◌,
}
use hermes_orchestrator.Models.Json.{Fields, end, field, text, uuid, opt_uuid, opt_number}
use hermes_orchestrator.Models.Rows.{Task}
use hermes_orchestrator.Models.Environments.{
  EnvironmentDeployment, EnvironmentAction, EnvironmentDeployCreate, deploy_text, DeploymentStatus,
  ActionStatus, status_is_active,
}
use hermes_orchestrator.Models.Settings.{Settings, TextLibrary, seconds}
use hermes_orchestrator.Store.Table
use hermes_orchestrator.Store.Exec.{
  Db, Exec, pure, gets, modify, commit, effective_time, save_deployment, save_action, Task-Keyed,
  EnvironmentDeployment-Keyed, ◌>>=◌, ◌>>◌,
}
use hermes_orchestrator.Policy.Permissions.{lookup}
use hermes_orchestrator.Environments.Action.{
  EnvironmentResult, Command, begin_action, unless_replayed, reject_if, or_reject, audit,
}
use hermes_orchestrator.Environments.Install.{Draft, current_of, replace, finish}

-- `body.model_dump(mode="json")`
pub deploy_payload : EnvironmentDeployCreate → Fields
deploy_payload b = field "environment" (text (deploy_text b.environment)) (
    field "repository" (text b.repository) (
      field "branch" (text b.branch) (
        field "resolved_sha" (text b.resolved_sha) (
          field "task_id" (opt_uuid b.task_id)
            (field "ttl_seconds" (opt_number b.ttl_seconds) end)))))

-- `body.ttl_seconds or default`
unfoldable pub ttl_or : Option ℕ → ℕ → ℕ
ttl_or none d = d
ttl_or (some n) d = if n == 0 then d else n

unfoldable pub is_active_local : EnvironmentDeployment → Bool
is_active_local d = str_eq d.environment "local" && status_is_active d.status

-- An active local deployment whose time is over.
unfoldable pub is_stale : ℕ → EnvironmentDeployment → Bool
unfolding is_active_local
is_stale now d = is_active_local d && some_and (λ t. leb t now) d.expires_at

unfoldable pub expire_if_stale : ℕ → EnvironmentDeployment → EnvironmentDeployment
unfolding is_stale
expire_if_stale now d = if is_stale now d then record d { status = DeploymentStatus.expired } else d

-- The loop over `active_locals`, and the flush.
unfoldable pub expire_stale : ℕ → Exec Unit
unfolding expire_if_stale
expire_stale now =
    modify λ d. record d {
      environment_deployments = map (expire_if_stale now) d.environment_deployments;
    }

-- An active local deployment that holds the port.
unfoldable pub holds_port : ℕ → EnvironmentDeployment → Bool
unfolding is_active_local
holds_port port d = is_active_local d && some_and (λ p. p == port) d.allocated_port

-- `candidate in used_ports`
unfoldable pub port_is_used : ℕ → List EnvironmentDeployment → Bool
unfolding holds_port
port_is_used port [] = false
port_is_used port (d ∷ ds) = holds_port port d || port_is_used port ds

-- `next((c for c in range(port, port + n) if c not in used_ports), None)`
unfoldable pub first_free : List EnvironmentDeployment → ℕ → ℕ → Option ℕ
unfolding port_is_used
first_free deployed zero port = none
first_free deployed (suc n) port =
    let rest = first_free deployed n (suc port) in
    if port_is_used port deployed then rest else some port

unfoldable pub free_port : Settings → Db → Option ℕ
unfolding first_free
free_port settings d =
    first_free d.environment_deployments
      (suc settings.environment_local_port_end - settings.environment_local_port_start)
      settings.environment_local_port_start

-- Where a deployment goes: the task of a local one, its instance, its port and its end.
pub record Place : Type 0 where
  pub task_id : Option ℕ
  pub instance_key : String
  pub allocated_port : Option ℕ
  pub expires_at : Option ℕ

-- `session.get(Task, body.task_id)`, where there is an identifier.
abbrev pub named_task : Db → Option ℕ → Option Task
named_task d none = none
named_task d (some id) = Table.get id d.tasks

unfoldable pub local_place :
    TextLibrary → Settings → EnvironmentDeployCreate → String → ℕ → EnvironmentAction → Exec Place
unfolding ttl_or expire_stale free_port
local_place lib settings body actor_id now action = do
  found ← gets (λ d. named_task d body.task_id)
  task ← or_reject found action actor_id "local_task_required" 422
  let ttl = ttl_or body.ttl_seconds settings.environment_local_default_ttl_seconds
  reject_if (ltb settings.environment_local_max_ttl_seconds ttl) action actor_id
      "local_ttl_exceeded" 422
  expire_stale now
  running ← gets (current_of "local" (lib.uuid_text task.id))
  reject_if (is_some running) action actor_id "local_already_active" 409
  free ← gets (free_port settings)
  port ← or_reject free action actor_id "local_port_pool_exhausted" 409
  pure (record {
    task_id = some task.id;
    instance_key = lib.uuid_text task.id;
    allocated_port = some port;
    expires_at = some (now + seconds ttl);
  })

unfoldable pub shared_place : EnvironmentDeployCreate → String → EnvironmentAction → Exec Place
shared_place body actor_id action = do
  reject_if (is_some body.task_id || is_some body.ttl_seconds) action actor_id
      "dev_local_fields_denied" 422
  pure
      (record { task_id = none; instance_key = "shared"; allocated_port = none; expires_at = none })

unfoldable pub place_of :
    TextLibrary → Settings → EnvironmentDeployCreate → String → ℕ → EnvironmentAction → Exec Place
unfolding local_place shared_place
place_of lib settings body actor_id now action =
    if str_eq (deploy_text body.environment) "local"
    then local_place lib settings body actor_id now action
    else shared_place body actor_id action

unfoldable pub deploy_draft : EnvironmentDeployCreate → String → Place → Draft
deploy_draft body actor_id place = record {
  environment = deploy_text body.environment;
  instance_key = place.instance_key;
  repository = body.repository;
  ref_kind = "branch";
  ref_value = body.branch;
  resolved_sha = body.resolved_sha;
  task_id = place.task_id;
  allocated_port = place.allocated_port;
  expires_at = place.expires_at;
  source_deployment_id = none;
  rollback_of_deployment_id = none;
  requested_by_actor_id = actor_id;
  approval_actor_id = none;
}

unfoldable pub deployed_payload : EnvironmentDeployCreate → Place → Fields
deployed_payload body place = field "environment" (text (deploy_text body.environment)) (
    field "ref_kind" (text "branch") (
      field "ref_value" (text body.branch) (
        field "resolved_sha" (text body.resolved_sha)
          (field "allocated_port" (opt_number place.allocated_port) end))))

is_developer : Settings → String → Bool
is_developer settings actor_id =
    some_and (λ role. str_eq role "developer") (lookup actor_id settings.actor_roles)

unfoldable pub deploy_new :
    TextLibrary
    → Settings
    → EnvironmentDeployCreate
    → String
    → EnvironmentAction
    → Exec EnvironmentResult
unfolding place_of deploy_draft deployed_payload is_developer
deploy_new lib settings body actor_id action = do
  reject_if (not (str_in body.repository settings.environment_allowed_repositories)) action actor_id
      "repository_not_allowed" 403
  reject_if (is_developer settings actor_id && not (str_eq (deploy_text body.environment) "local"))
      action actor_id "developer_scope_denied" 403
  now ← effective_time none
  place ← place_of lib settings body actor_id now action
  previous ← gets (current_of (deploy_text body.environment) place.instance_key)
  deployment ← replace previous (deploy_draft body actor_id place)
  finish action actor_id "environment.deployed" previous (deployed_payload body place) deployment

unfoldable pub deploy_command : EnvironmentDeployCreate → String → String → Command
unfolding deploy_payload
deploy_command body actor_id idempotency_key = record {
  action = "deploy";
  environment = deploy_text body.environment;
  actor_id = actor_id;
  idempotency_key = idempotency_key;
  payload = deploy_payload body;
}

unfoldable pub deploy_environment :
    TextLibrary → Settings → EnvironmentDeployCreate → String → String → Exec EnvironmentResult
unfolding deploy_new deploy_command
deploy_environment lib settings body actor_id idempotency_key = do
  begun ← begin_action lib (deploy_command body actor_id idempotency_key)
  unless_replayed (deploy_new lib settings body actor_id) begun

unfoldable pub local_or_none : Option EnvironmentDeployment → Option EnvironmentDeployment
local_or_none none = none
local_or_none (some d) = if str_eq d.environment "local" then some d else none

-- The local deployment is over: the writes of `expire_local`.
unfoldable pub end_local :
    String → EnvironmentAction → EnvironmentDeployment → Exec EnvironmentResult
end_local actor_id action d = do
  let deployment = record d { status = DeploymentStatus.expired }
  save_deployment deployment
  save_action (record action { status = ActionStatus.applied; deployment_id = some deployment.id })
  audit actor_id "environment.local.expired" deployment.id
      (field "allocated_port" (opt_number deployment.allocated_port) end)
  commit
  pure (record { deployment = deployment; replayed = false })

unfoldable pub expire_new : ℕ → String → EnvironmentAction → Exec EnvironmentResult
unfolding local_or_none end_local
expire_new deployment_id actor_id action = do
  row ← gets (λ d. Table.get deployment_id d.environment_deployments)
  d ← or_reject (local_or_none row) action actor_id "local_deployment_not_found" 404
  end_local actor_id action d

unfoldable pub expire_command : ℕ → String → String → Command
expire_command deployment_id actor_id idempotency_key = record {
  action = "expire";
  environment = "local";
  actor_id = actor_id;
  idempotency_key = idempotency_key;
  payload = field "deployment_id" (uuid deployment_id) end;
}

unfoldable pub expire_local : TextLibrary → ℕ → String → String → Exec EnvironmentResult
unfolding expire_new expire_command
expire_local lib deployment_id actor_id idempotency_key = do
  begun ← begin_action lib (expire_command deployment_id actor_id idempotency_key)
  unless_replayed (expire_new deployment_id actor_id) begun
