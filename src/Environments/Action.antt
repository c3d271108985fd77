-- ===== src/Environments/Action.antt =====
-- The record of an action of environment_services.py: `_begin_action`, `_reject`, `_approve`.
use hermes_orchestrator.Prelude.{
  ℕ, Bool, true, false, ◌||◌, ◌&&◌, not, String, Option, none, some, [], ◌∷◌, ◌++◌, str_eq, str_in,
  text_or, find, some_and, if◌then◌else◌,
}
use hermes_orchestrator.Models.Json.{Fields, end, field, text}
use hermes_orchestrator.Models.Environments.{
  EnvironmentDeployment, EnvironmentAction, EnvironmentApprovalEvidence, ActionStatus,
  action_is_rejected,
}
use hermes_orchestrator.Models.Settings.{Settings, TextLibrary}
use hermes_orchestrator.Store.Table
use hermes_orchestrator.Store.Exec.{
  Db, Exec, Exception, pure, raise, raise_if, or_raise, gets, commit, add_row, add_audit,
  save_action, EnvironmentDeployment-Keyed, ◌>>=◌, ◌>>◌,
}
use hermes_orchestrator.Policy.Permissions.{Permission, actor_is_allowed, lookup}

-- `EnvironmentResult`
pub record EnvironmentResult : Type 0 where
  pub deployment : EnvironmentDeployment
  pub replayed : Bool

-- `_audit`
unfoldable pub audit : String → String → ℕ → Fields → Exec Unit
audit actor_id event_type aggregate_id payload = add_audit (record {
  actor_id = actor_id;
  event_type = event_type;
  aggregate_type = "environment";
  aggregate_id = aggregate_id;
  payload = payload;
})

-- What is asked for: the kind of action and its environment, who asks under which key, and the
-- payload with its hash.
pub record Command : Type 0 where
  pub action : String
  pub environment : String
  pub actor_id : String
  pub idempotency_key : String
  pub payload : Fields

unfoldable pub new_action : String → Command → ℕ → EnvironmentAction
new_action request_hash c id = record {
  id = id;
  action = c.action;
  environment = c.environment;
  requested_by_actor_id = c.actor_id;
  idempotency_key = c.idempotency_key;
  request_hash = request_hash;
  request_payload = c.payload;
  status = ActionStatus.requested;
  deployment_id = none;
  previous_deployment_id = none;
  approval_actor_id = none;
  approval_reason = none;
  error_code = none;
}

-- The key was used for something else.
unfoldable pub differs : String → Command → EnvironmentAction → Bool
differs request_hash c existing =
    not (str_eq existing.request_hash request_hash)
    || not (str_eq existing.requested_by_actor_id c.actor_id)
    || not (str_eq existing.action c.action)

-- An action that was begun before: its deployment, or the error that it ended with.
unfoldable pub replay_action :
    String → Command → EnvironmentAction → Exec (EnvironmentAction × Option EnvironmentResult)
unfolding differs
replay_action request_hash c existing = do
  raise_if (differs request_hash c existing) (Exception.environment "idempotency_conflict" 409)
  raise_if (action_is_rejected existing.status)
      (Exception.environment (text_or existing.error_code "environment_action_rejected") 409)
  id ←
      or_raise existing.deployment_id
        (Exception.environment (text_or existing.error_code "environment_action_rejected") 409)
  row ← gets (λ d. Table.get id d.environment_deployments)
  deployment ← or_raise row (Exception.environment "deployment_not_found" 404)
  pure (existing, some (record { deployment = deployment; replayed = true }))

unfoldable pub insert_action :
    String → Command → Exec (EnvironmentAction × Option EnvironmentResult)
unfolding new_action
insert_action request_hash c = do
  id ← add_row λ id d. record d {
    environment_actions = d.environment_actions ++ new_action request_hash c id ∷ [];
  }
  pure (new_action request_hash c id, none)

unfoldable pub action_by_key : String → Db → Option EnvironmentAction
action_by_key idempotency_key d =
    find (λ (a : EnvironmentAction). str_eq a.idempotency_key idempotency_key) d.environment_actions

unfoldable pub replay_or_begin :
    String
    → Command
    → Option EnvironmentAction
    → Exec (EnvironmentAction × Option EnvironmentResult)
unfolding replay_action insert_action
replay_or_begin request_hash c none = insert_action request_hash c
replay_or_begin request_hash c (some existing) = replay_action request_hash c existing

-- `_begin_action`: the record of the action, and the result that stands if it is a replay.
unfoldable pub begin_action :
    TextLibrary → Command → Exec (EnvironmentAction × Option EnvironmentResult)
unfolding replay_or_begin action_by_key
begin_action lib c = do
  existing ← gets (action_by_key c.idempotency_key)
  replay_or_begin (lib.digest c.payload) c existing

-- `if replay is not None: return replay`
unfoldable pub unless_replayed :
    (EnvironmentAction → Exec EnvironmentResult)
    → EnvironmentAction × Option EnvironmentResult
    → Exec EnvironmentResult
unless_replayed rest (record_, none) = rest record_
unless_replayed rest (record_, some result) = pure result

-- `_reject`: the refusal is stored before it is raised.
unfoldable pub reject : {A : Type 0} → EnvironmentAction → String → String → ℕ → Exec A
unfolding audit
reject action actor_id code status_code = do
  save_action (record action { status = ActionStatus.rejected; error_code = some code })
  audit actor_id "environment.action.rejected" action.id (
      field "action" (text action.action)
        (field "environment" (text action.environment) (field "code" (text code) end)))
  commit
  raise (Exception.environment code status_code)

-- `if c: _reject(...)`
unfoldable pub reject_if : Bool → EnvironmentAction → String → String → ℕ → Exec Unit
unfolding reject
reject_if true action actor_id code status_code = reject action actor_id code status_code
reject_if false action actor_id code status_code = pure tt

-- `if x is None: _reject(...)`
unfoldable pub or_reject :
    {A : Type 0} → Option A → EnvironmentAction → String → String → ℕ → Exec A
unfolding reject
or_reject none action actor_id code status_code = reject action actor_id code status_code
or_reject (some a) action actor_id code status_code = pure a

-- The tests of `_approve`.
unfoldable pub may_approve : Settings → String → Bool → String → Bool
may_approve settings requester operator_only approval_actor =
    not (str_eq approval_actor requester)
    && actor_is_allowed approval_actor Permission.approvals_decide settings.actor_roles
    && not (
        operator_only
        && not (
            some_and (λ role. str_in role ("owner" ∷ "operator" ∷ []))
              (lookup approval_actor settings.actor_roles)))

-- `_approve`: the record with the approval on it.
unfoldable pub approve :
    Settings
    → EnvironmentAction
    → String
    → Option EnvironmentApprovalEvidence
    → Bool
    → Option EnvironmentAction
unfolding may_approve
approve settings action requester none operator_only = none
approve settings action requester (some evidence) operator_only =
    if may_approve settings requester operator_only evidence.actor_id
    then some (record action {
      approval_actor_id = some evidence.actor_id;
      approval_reason = some evidence.reason;
    })
    else none
