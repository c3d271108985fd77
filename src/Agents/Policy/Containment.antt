-- ===== src/Agents/Policy/Containment.antt =====
-- What a request that the policy approves is contained in.
use hermes_orchestrator.Prelude.{
  or_else, subst, ◌<◌, ◌≡◌, ◌≢◌, refl, true, false, String, Option, none, some, [], str_eq, str_in,
  strip_prefix, is_some, any, count, length, Option-cases, inl, inr,
}
use hermes_orchestrator.Models.Json.{array, texts, Fields, get, as_text}
use hermes_orchestrator.Models.Rows.{Agent}
use hermes_orchestrator.Models.Requests.{AgentRequestRecord}
use hermes_orchestrator.Models.Settings.{Settings, TextLibrary}
use hermes_orchestrator.Store.Exec.{Db}
use hermes_orchestrator.Policy.Permissions.{lookup}
use hermes_orchestrator.Agents.Profiles.{SafeAgentProfile, safe_agent_profiles}
use hermes_orchestrator.Agents.Evaluation.{
  dangerous, sequence, PolicyAction, object_or_empty, managed_agents,
}
use hermes_orchestrator.Agents.Policy.{
  evaluate_authority, slug_within, evaluate_fleet, safe_profile, evaluate_role,
  evaluate_agent_request,
}
use hermes_orchestrator.Agents.Policy.Within.{ListWithin, sequence_within-ListWithin}
use hermes_orchestrator.Agents.Policy.Passed.{
  is_approve, Approves, rejected-approve, not_passed, other_passed, ltb_passed, unless-approve,
  sensitive-approve, slug_within_of, safe_profile_of, enabled_passed, approved_action,
}
use hermes_orchestrator.Agents.Policy.PolicySet.{PolicyWithin, evaluate_policy_set-approve}

-- A request within a profile of the catalogue, with room for it in the fleet.
pub record Contained (lib : TextLibrary) (settings : Settings) (d : Db)
    (request : AgentRequestRecord) : Type 0 where
  pub enabled : settings.agent_policy_enabled ≡ true
  pub other : request.requested_by_actor_id ≢ settings.agent_policy_actor_id
  pub role : String
  pub role_named : as_text (get "role" request.payload) ≡ some role
  pub role_allowed : str_in role settings.agent_policy_allowed_roles ≡ true
  pub profile : SafeAgentProfile
  pub catalogued : lookup role safe_agent_profiles ≡ some profile
  pub slug : String
  pub slug_named : as_text (get "slug" request.payload) ≡ some slug
  pub prefixed : is_some (strip_prefix profile.slug_prefix slug) ≡ true
  pub slug_new : any (λ (a : Agent). str_eq a.slug slug) (managed_agents d) ≡ false
  pub fleet_room : length (managed_agents d) < settings.agent_policy_max_active_agents
  pub role_room :
      count (λ (a : Agent). str_eq a.role profile.role) (managed_agents d) < profile.max_active_role
  pub capabilities : ListWithin (get "capabilities" request.payload) profile.capabilities
  pub sensitive_free :
      dangerous lib (array (texts (or_else (sequence (get "capabilities" request.payload)) [])))
      ≡ none
  pub secrets : ListWithin (get "secret_refs" request.payload) profile.secret_refs
  pub policy_set : Fields
  pub policy_given : object_or_empty (get "policy_set" request.payload) ≡ some policy_set
  pub policy : PolicyWithin lib profile policy_set

evaluate_fleet-approve :
    (lib : TextLibrary) (settings : Settings) (d : Db) (request : AgentRequestRecord)
    (role : String) (profile : SafeAgentProfile) (o : Option String)
    → settings.agent_policy_enabled ≡ true
    → request.requested_by_actor_id ≢ settings.agent_policy_actor_id
    → as_text (get "role" request.payload) ≡ some role
    → str_in role settings.agent_policy_allowed_roles ≡ true
    → lookup role safe_agent_profiles ≡ some profile
    → o ≡ slug_within profile (as_text (get "slug" request.payload))
    → Approves (evaluate_fleet lib settings (managed_agents d) profile request.payload o)
    → Contained lib settings d request
unfolding evaluate_fleet evaluate_authority
evaluate_fleet-approve lib settings d request role profile none enabled other named allowed
      catalogued slugged h =
    rejected-approve _ _ h
evaluate_fleet-approve lib settings d request role profile (some slug) enabled other named allowed
      catalogued slugged h =
    let (slug_new, h1) = unless-approve _ _ _ _ h in
    let (fleet_room, h2) = unless-approve _ _ _ _ h1 in
    let (role_room, h3) = unless-approve _ _ _ _ h2 in
    let (capabilities, h4) = unless-approve _ _ _ _ h3 in
    let (harmless, h5) = sensitive-approve _ _ h4 in
    let (secrets, h6) = unless-approve _ _ _ _ h5 in
    let (policy_set, given, policy) = evaluate_policy_set-approve lib profile _ h6 in
    let (slug_named, prefixed) =
      slug_within_of profile (as_text (get "slug" request.payload)) slug slugged in
    record {
      enabled = enabled;
      other = other;
      role = role;
      role_named = named;
      role_allowed = allowed;
      profile = profile;
      catalogued = catalogued;
      slug = slug;
      slug_named = slug_named;
      prefixed = prefixed;
      slug_new = not_passed _ slug_new;
      fleet_room = ltb_passed _ _ fleet_room;
      role_room = ltb_passed _ _ role_room;
      capabilities = sequence_within-ListWithin _ _ capabilities;
      sensitive_free = harmless;
      secrets = sequence_within-ListWithin _ _ secrets;
      policy_set = policy_set;
      policy_given = given;
      policy = policy;
    }

evaluate_role-approve :
    (lib : TextLibrary) (settings : Settings) (d : Db) (request : AgentRequestRecord)
    (o : Option String)
    → settings.agent_policy_enabled ≡ true
    → request.requested_by_actor_id ≢ settings.agent_policy_actor_id
    → as_text (get "role" request.payload) ≡ o
    → Approves (evaluate_role lib settings d request.payload (safe_profile settings o))
    → Contained lib settings d request
unfolding safe_profile evaluate_role
evaluate_role-approve lib settings d request none enabled other named h = rejected-approve _ _ h
evaluate_role-approve lib settings d request (some role) enabled other named h =
    elim (Option-cases (safe_profile settings (some role))) [
      | inl missing ↦
          rejected-approve _ _
            (subst (λ o. Approves (evaluate_role lib settings d request.payload o)) missing h)
      | inr (profile, found) ↦
          let (allowed, catalogued) = safe_profile_of settings role profile found in
          evaluate_fleet-approve lib settings d request role profile _ enabled other named allowed
            catalogued refl
            (subst (λ o. Approves (evaluate_role lib settings d request.payload o)) found h)
    ]

-- The policy approves a request only if the policy is on, another actor than the policy asks, the
-- role is an allowed one with a profile in the catalogue, the slug has the profile's prefix and is
-- not that of an active managed agent, the fleet and the role have room, the capabilities and the
-- secrets are lists within the profile's, the capabilities hold no dangerous marker, and the policy
-- has allowed keys only, no dangerous marker, an allowed name, the role's execution profile and no
-- other, toolsets, tools and communication within the profile's, an allowed mount profile and a
-- budget of natural numbers within the limits.
pub evaluate-Contained :
    (lib : TextLibrary) (settings : Settings) (d : Db) (request : AgentRequestRecord)
    → (evaluate_agent_request lib settings d request).action ≡ PolicyAction.approve
    → Contained lib settings d request
unfolding evaluate_agent_request is_approve
evaluate-Contained lib settings d request h =
    let (enabled, h1) =
      enabled_passed settings.agent_policy_enabled _ _ (approved_action _ h) refl in
    let (other, h2) = unless-approve _ _ _ _ h1 in
    evaluate_role-approve lib settings d request _ enabled (other_passed _ _ other) refl h2
