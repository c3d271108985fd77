-- ===== src/Environments/Promote.antt =====
-- `promote_environment` of environment_services.py.
use hermes_orchestrator.Prelude.{
  ℕ, zero, suc, Bool, true, false, ◌||◌, ◌&&◌, not, String, Option, none, some, str_eq, str_in, leb,
  ◌==◌, is_some, if◌then◌else◌,
}
use Prim.Native.Char.{code}
use hermes_orchestrator.Models.Json.{Json, null, object, Fields, end, field, text, uuid, opt_text}
use hermes_orchestrator.Models.Environments.{
  EnvironmentDeployment, EnvironmentAction, EnvironmentApprovalEvidence, EnvironmentPromotionCreate,
  target_text, status_is_active,
}
use hermes_orchestrator.Models.Settings.{Settings, TextLibrary}
use hermes_orchestrator.Store.Table
use hermes_orchestrator.Store.Exec.{
  Exec, pure, gets, save_action, EnvironmentDeployment-Keyed, ◌>>=◌, ◌>>◌,
}
use hermes_orchestrator.Environments.Action.{
  EnvironmentResult, Command, begin_action, unless_replayed, reject_if, or_reject, approve,
}
use hermes_orchestrator.Environments.Install.{Draft, current_of, replace, finish}

unfoldable pub approval_fields : EnvironmentApprovalEvidence → Fields
approval_fields a =
    field "actor_id" (text a.actor_id)
      (field "decision" (text "approved") (field "reason" (text a.reason) end))

opt_approval : Option EnvironmentApprovalEvidence → Json
unfolding approval_fields
opt_approval none = null
opt_approval (some a) = object (approval_fields a)

-- `body.model_dump(mode="json")`
promotion_payload : EnvironmentPromotionCreate → Fields
unfolding opt_approval
promotion_payload b = field "source_deployment_id" (uuid b.source_deployment_id) (
    field "target_environment" (text (target_text b.target_environment)) (
      field "repository" (text b.repository) (
        field "resolved_sha" (text b.resolved_sha)
          (field "tag" (opt_text b.tag) (field "approval" (opt_approval b.approval) end)))))

is_alnum : ℕ → Bool
is_alnum c = (leb 48 c && leb c 57) || (leb 65 c && leb c 90) || (leb 97 c && leb c 122)

-- `[A-Za-z0-9._/-]{0,n}`
tag_rest : ℕ → String → Bool
unfolding is_alnum
tag_rest n String.[] = true
tag_rest zero (String.◌∷◌ c s) = false
tag_rest (suc n) (String.◌∷◌ c s) =
    (is_alnum (code c) || code c == 46 || code c == 95 || code c == 47 || code c == 45)
    && tag_rest n s

-- `SAFE_TAG.fullmatch`
unfoldable pub is_safe_tag : String → Bool
unfolding tag_rest is_alnum
is_safe_tag String.[] = false
is_safe_tag (String.◌∷◌ c s) = is_alnum (code c) && tag_rest 299 s

-- The environment that a promotion takes its source from.
abbrev pub expected_source : String → String
expected_source target = if str_eq target "pre" then "dev" else "pre"

-- `source.status == "active" and source.environment == expected_source`
unfoldable pub promotion_source :
    String → Option EnvironmentDeployment → Option EnvironmentDeployment
promotion_source target none = none
promotion_source target (some d) =
    if status_is_active d.status && str_eq d.environment (expected_source target)
    then some d
    else none

unfoldable pub ref_differs : Settings → EnvironmentPromotionCreate → EnvironmentDeployment → Bool
ref_differs settings body source =
    not (str_in body.repository settings.environment_allowed_repositories)
    || not (str_eq body.repository source.repository)
    || not (str_eq body.resolved_sha source.resolved_sha)

-- The kind and the value of the reference that the target is fixed by.
unfoldable pub promoted_ref :
    EnvironmentPromotionCreate → String → EnvironmentAction → Exec (String × String)
promoted_ref body actor_id action =
    if str_eq (target_text body.target_environment) "pre"
    then (do
      reject_if (is_some body.tag) action actor_id "pre_tag_denied" 422
      pure ("sha", body.resolved_sha))
    else (do
      tag ← or_reject body.tag action actor_id "immutable_tag_required" 422
      reject_if (not (is_safe_tag tag)) action actor_id "immutable_tag_required" 422
      pure ("tag", tag))

unfoldable pub promotion_draft :
    EnvironmentPromotionCreate
    → String
    → EnvironmentDeployment
    → Option String
    → String × String
    → Draft
promotion_draft body actor_id source approval_actor_id (ref_kind, ref_value) = record {
  environment = target_text body.target_environment;
  instance_key = "shared";
  repository = body.repository;
  ref_kind = ref_kind;
  ref_value = ref_value;
  resolved_sha = body.resolved_sha;
  task_id = none;
  allocated_port = none;
  expires_at = none;
  source_deployment_id = some source.id;
  rollback_of_deployment_id = none;
  requested_by_actor_id = actor_id;
  approval_actor_id = approval_actor_id;
}

unfoldable pub promoted_payload : EnvironmentDeployment → Draft → Fields
promoted_payload source draft = field "from" (text source.environment) (
    field "to" (text draft.environment) (
      field "ref_kind" (text draft.ref_kind) (
        field "ref_value" (text draft.ref_value) (
          field "resolved_sha" (text draft.resolved_sha)
            (field "approved_by" (opt_text draft.approval_actor_id) end)))))

unfoldable pub promote_from :
    EnvironmentPromotionCreate
    → String
    → EnvironmentDeployment
    → EnvironmentAction
    → Exec EnvironmentResult
unfolding promoted_ref promotion_draft promoted_payload
promote_from body actor_id source approved = do
  ref ← promoted_ref body actor_id approved
  let draft = promotion_draft body actor_id source approved.approval_actor_id ref
  previous ← gets (current_of (target_text body.target_environment) "shared")
  deployment ← replace previous draft
  finish approved actor_id "environment.promoted" previous (promoted_payload source draft)
      deployment

unfoldable pub promote_new :
    Settings → EnvironmentPromotionCreate → String → EnvironmentAction → Exec EnvironmentResult
unfolding promotion_source ref_differs promote_from
promote_new settings body actor_id action = do
  reject_if (str_eq (target_text body.target_environment) "live") action actor_id
      "live_environment_denied" 403
  row ← gets (λ d. Table.get body.source_deployment_id d.environment_deployments)
  source ←
      or_reject (promotion_source (target_text body.target_environment) row) action actor_id
        "invalid_promotion_source" 409
  reject_if (ref_differs settings body source) action actor_id "immutable_ref_mismatch" 409
  approved ←
      or_reject
        (approve settings action actor_id body.approval
          (str_eq (target_text body.target_environment) "prod-sim"))
        action actor_id "independent_approval_required" 403
  save_action approved
  promote_from body actor_id source approved

unfoldable pub promotion_command : EnvironmentPromotionCreate → String → String → Command
unfolding promotion_payload
promotion_command body actor_id idempotency_key = record {
  action = "promote";
  environment = target_text body.target_environment;
  actor_id = actor_id;
  idempotency_key = idempotency_key;
  payload = promotion_payload body;
}

unfoldable pub promote_environment :
    TextLibrary → Settings → EnvironmentPromotionCreate → String → String → Exec EnvironmentResult
unfolding promote_new promotion_command
promote_environment lib settings body actor_id idempotency_key = do
  begun ← begin_action lib (promotion_command body actor_id idempotency_key)
  unless_replayed (promote_new settings body actor_id) begun
