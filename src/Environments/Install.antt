-- ===== src/Environments/Install.antt =====
-- The end of each change of an environment: the deployment that was current is superseded, the new
-- one is inserted, and the action is applied, audited and committed.
use hermes_orchestrator.Prelude.{
  ℕ, Bool, ◌&&◌, String, Option, none, some, false, List, [], ◌∷◌, ◌++◌, str_eq, ltb, filter,
  if◌then◌else◌,
}
use hermes_orchestrator.Models.Json.{Fields}
use hermes_orchestrator.Models.Environments.{
  EnvironmentDeployment, EnvironmentAction, ActionStatus, DeploymentStatus, status_is_active,
}
use hermes_orchestrator.Store.Exec.{
  Db, Exec, pure, commit, add_row, effective_time, save_deployment, save_action, ◌>>=◌, ◌>>◌,
}
use hermes_orchestrator.Environments.Action.{EnvironmentResult, audit}

-- An active deployment of the environment and the instance.
unfoldable pub is_current : String → String → EnvironmentDeployment → Bool
is_current environment instance_key d =
    str_eq d.environment environment
    && str_eq d.instance_key instance_key
    && status_is_active d.status

-- The first of the rows by `created_at`, the latest first.
unfoldable pub newest : List EnvironmentDeployment → Option EnvironmentDeployment
newest [] = none
newest (d ∷ rest) = elim (newest rest) [
  | none ↦ some d
  | some e ↦ if ltb e.created_at d.created_at then some d else some e
]

-- `_current`
unfoldable pub current_of : String → String → Db → Option EnvironmentDeployment
unfolding is_current newest
current_of environment instance_key d =
    newest (filter (is_current environment instance_key) d.environment_deployments)

-- `previous.status = "superseded"`
abbrev pub supersede : Option EnvironmentDeployment → Exec Unit
supersede none = pure tt
supersede (some e) = save_deployment (record e { status = DeploymentStatus.superseded })

-- The columns of a new deployment that its operation gives; the others are the table's defaults.
pub record Draft : Type 0 where
  pub environment : String
  pub instance_key : String
  pub repository : String
  pub ref_kind : String
  pub ref_value : String
  pub resolved_sha : String
  pub task_id : Option ℕ
  pub allocated_port : Option ℕ
  pub expires_at : Option ℕ
  pub source_deployment_id : Option ℕ
  pub rollback_of_deployment_id : Option ℕ
  pub requested_by_actor_id : String
  pub approval_actor_id : Option String

unfoldable pub new_deployment : Draft → ℕ → ℕ → EnvironmentDeployment
new_deployment r now id = record {
  id = id;
  environment = r.environment;
  instance_key = r.instance_key;
  repository = r.repository;
  ref_kind = r.ref_kind;
  ref_value = r.ref_value;
  resolved_sha = r.resolved_sha;
  task_id = r.task_id;
  allocated_port = r.allocated_port;
  expires_at = r.expires_at;
  status = DeploymentStatus.active;
  source_deployment_id = r.source_deployment_id;
  rollback_of_deployment_id = r.rollback_of_deployment_id;
  requested_by_actor_id = r.requested_by_actor_id;
  approval_actor_id = r.approval_actor_id;
  created_at = now;
}

abbrev pub id_of : Option EnvironmentDeployment → Option ℕ
id_of none = none
id_of (some e) = some e.id

-- `session.add(deployment)` and the flush.
unfoldable pub add_deployment : Draft → Exec EnvironmentDeployment
unfolding new_deployment
add_deployment draft = do
  now ← effective_time none
  id ← add_row λ id d. record d {
    environment_deployments = d.environment_deployments ++ new_deployment draft now id ∷ [];
  }
  pure (new_deployment draft now id)

-- The new deployment takes the place of the one before it, if there was one.
unfoldable pub replace : Option EnvironmentDeployment → Draft → Exec EnvironmentDeployment
unfolding add_deployment
replace previous draft = do supersede previous; add_deployment draft

-- The action is applied, audited and committed.
unfoldable pub finish :
    EnvironmentAction
    → String
    → String
    → Option EnvironmentDeployment
    → Fields
    → EnvironmentDeployment
    → Exec EnvironmentResult
unfolding audit
finish action actor_id event_type previous payload deployment = do
  save_action (record action {
    status = ActionStatus.applied;
    deployment_id = some deployment.id;
    previous_deployment_id = id_of previous;
  })
  audit actor_id event_type deployment.id payload
  commit
  pure (record { deployment = deployment; replayed = false })
