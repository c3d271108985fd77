-- ===== src/Agents/Policy.antt =====
-- `evaluate_agent_request` of agent_policy.py: whether a request lies within a safe profile.
pub mod Within
pub mod Passed
pub mod PolicySet
pub mod Containment
use hermes_orchestrator.Prelude.{
  ℕ, Bool, true, false, ◌&&◌, not, String, Option, none, some, List, [], ◌∷◌, map, str_eq, str_in,
  str_append, strip_prefix, is_some, any, count, length, ltb, or_else, some_and, if◌then◌else◌,
}
use hermes_orchestrator.Models.Json.{Json, Fields, array, texts, get, as_text}
use hermes_orchestrator.Models.Rows.{Agent}
use hermes_orchestrator.Models.Requests.{AgentRequestRecord}
use hermes_orchestrator.Models.Settings.{Settings, TextLibrary}
use hermes_orchestrator.Store.Exec.{Db}
use hermes_orchestrator.Policy.Permissions.{lookup}
use hermes_orchestrator.Agents.Profiles.{
  SafeAgentProfile, safe_agent_profiles, allowed_policy_keys, role_execution_profile,
  profile_fields,
}
use hermes_orchestrator.Agents.Evaluation.{
  PolicyAction, AgentPolicyDecision, dangerous, dangerous_fields, sequence, is_subset, keys_subset,
  sequence_within, object_or_empty, absent_or_text, absent_or_only, absent_or_in, budget_excess,
  managed_agents, rejected, unless,
}

-- `AgentPolicyDecision("approve", ...)`
unfoldable pub approved_by : TextLibrary → SafeAgentProfile → AgentPolicyDecision
approved_by lib profile = record {
  action = PolicyAction.approve;
  code = "profile_allowlisted";
  reason = "Solicitud contenida en un perfil seguro versionado";
  profile_id = some profile.profile_id;
  profile_digest = some (lib.digest (profile_fields profile));
}

unfoldable pub sensitive : Option String → AgentPolicyDecision → AgentPolicyDecision
sensitive none rest = rest
sensitive (some marker) rest =
    rejected "sensitive_authority_denied" (str_append "Autoridad sensible denegada: " marker)

unfoldable pub within_limits : Option String → AgentPolicyDecision → AgentPolicyDecision
within_limits none rest = rest
within_limits (some key) rest =
    rejected "budget_limit_exceeded" (str_append "Presupuesto excedido: " key)

-- The names of the limits: `set(budget).issubset(limits)`.
abbrev pub limit_names : SafeAgentProfile → List String
limit_names profile = map (λ (l : String × ℕ). l.0) profile.budget_limits

unfoldable pub evaluate_budget : TextLibrary → SafeAgentProfile → Fields → AgentPolicyDecision
unfolding approved_by within_limits
evaluate_budget lib profile policy_set = elim (object_or_empty (get "budget" policy_set)) [
  | none ↦ rejected "budget_not_allowlisted" "Presupuesto fuera del perfil firmado"
  | some budget ↦
      unless (keys_subset budget (limit_names profile)) "budget_not_allowlisted"
        "Presupuesto fuera del perfil firmado"
        (within_limits (budget_excess profile.budget_limits budget) (approved_by lib profile))
]

-- The tests of the fields of the policy, but for the budget.
unfoldable pub evaluate_fields : TextLibrary → SafeAgentProfile → Fields → AgentPolicyDecision
unfolding evaluate_budget
evaluate_fields lib profile policy_set =
    let expected = role_execution_profile profile.role in
    unless (some_and (λ name. str_in name profile.policy_names) (as_text (get "name" policy_set)))
      "policy_name_not_allowlisted" "Nombre de policy no allowlisted"
      (unless (absent_or_text (get "execution_profile_default" policy_set) expected)
        "model_policy_denied" (str_append "El perfil debe ser " expected)
        (unless (absent_or_only (get "allowed_profiles" policy_set) expected) "model_policy_denied"
          (str_append "El allowlist debe contener sólo " expected)
          (unless (sequence_within (get "toolsets" policy_set) profile.toolsets)
            "toolsets_not_allowlisted" "toolsets fuera del perfil firmado"
            (unless (sequence_within (get "mcp_tools" policy_set) profile.mcp_tools)
              "mcp_tools_not_allowlisted" "mcp_tools fuera del perfil firmado"
              (unless (sequence_within (get "communication" policy_set) profile.communication)
                "communication_not_allowlisted" "communication fuera del perfil firmado"
                (unless (absent_or_in (get "mount_profile" policy_set) profile.mount_profiles)
                  "mount_not_allowlisted" "Perfil de mounts no allowlisted"
                  (evaluate_budget lib profile policy_set)))))))

unfoldable pub evaluate_policy_set :
    TextLibrary → SafeAgentProfile → Option Fields → AgentPolicyDecision
unfolding evaluate_fields sensitive
evaluate_policy_set lib profile none =
    rejected "policy_field_not_allowlisted" "Campo de policy fuera del perfil firmado"
evaluate_policy_set lib profile (some policy_set) =
    unless (keys_subset policy_set allowed_policy_keys) "policy_field_not_allowlisted"
      "Campo de policy fuera del perfil firmado"
      (sensitive (dangerous_fields lib policy_set) (evaluate_fields lib profile policy_set))

-- The tests of the capabilities, the secrets and the policy.
unfoldable pub evaluate_authority : TextLibrary → SafeAgentProfile → Fields → AgentPolicyDecision
unfolding evaluate_policy_set
evaluate_authority lib profile payload =
    unless (sequence_within (get "capabilities" payload) profile.capabilities)
      "capability_not_allowlisted" "Capabilities fuera del perfil firmado"
      (sensitive
        (dangerous lib (array (texts (or_else (sequence (get "capabilities" payload)) []))))
        (unless (sequence_within (get "secret_refs" payload) profile.secret_refs)
          "secret_ref_not_allowlisted" "Referencia de secreto no estándar"
          (evaluate_policy_set lib profile (object_or_empty (get "policy_set" payload)))))

-- `slug.startswith(profile.slug_prefix)`, where it is a text
unfoldable pub slug_within : SafeAgentProfile → Option String → Option String
slug_within profile none = none
slug_within profile (some slug) =
    if is_some (strip_prefix profile.slug_prefix slug) then some slug else none

-- The tests of the fleet.
unfoldable pub evaluate_fleet :
    TextLibrary
    → Settings
    → List Agent
    → SafeAgentProfile
    → Fields
    → Option String
    → AgentPolicyDecision
unfolding evaluate_authority
evaluate_fleet lib settings active profile payload none =
    rejected "slug_profile_mismatch" "Slug incompatible con el perfil firmado"
evaluate_fleet lib settings active profile payload (some slug) =
    unless (not (any (λ (a : Agent). str_eq a.slug slug) active)) "slug_already_active"
      "Ya existe un agente activo con el mismo slug"
      (unless (ltb (length active) settings.agent_policy_max_active_agents) "fleet_limit_exceeded"
        "La flota dinámica alcanzó su límite"
        (unless
          (ltb (count (λ (a : Agent). str_eq a.role profile.role) active) profile.max_active_role)
          "role_limit_exceeded" "El rol alcanzó su límite de instancias activas"
          (evaluate_authority lib profile payload)))

-- `SAFE_AGENT_PROFILES.get(str(role))`, where the role is an allowed one
unfoldable pub safe_profile : Settings → Option String → Option SafeAgentProfile
safe_profile settings none = none
safe_profile settings (some role) =
    if str_in role settings.agent_policy_allowed_roles
    then lookup role safe_agent_profiles
    else none

unfoldable pub evaluate_role :
    TextLibrary → Settings → Db → Fields → Option SafeAgentProfile → AgentPolicyDecision
unfolding evaluate_fleet slug_within
evaluate_role lib settings d payload none =
    rejected "role_not_allowlisted" "Rol fuera del catálogo seguro"
evaluate_role lib settings d payload (some profile) =
    evaluate_fleet lib settings (managed_agents d) profile payload
      (slug_within profile (as_text (get "slug" payload)))

unfoldable pub evaluate_agent_request :
    TextLibrary → Settings → Db → AgentRequestRecord → AgentPolicyDecision
unfolding evaluate_role safe_profile
evaluate_agent_request lib settings d request =
    if settings.agent_policy_enabled
    then unless (not (str_eq request.requested_by_actor_id settings.agent_policy_actor_id))
        "self_escalation_denied" "El actor de policy no puede solicitarse autoridad"
        (evaluate_role lib settings d request.payload
          (safe_profile settings (as_text (get "role" request.payload))))
    else (record {
      action = PolicyAction.defer;
      code = "policy_disabled";
      reason = "Policy automática desactivada";
      profile_id = none;
      profile_digest = none;
    })
