-- ===== src/Agents/Policy/PolicySet.antt =====
-- What a policy that the policy tests let through is within.
use hermes_orchestrator.Prelude.{◌≡◌, refl, true, String, Option, none, some, [], ◌∷◌, str_in}
use hermes_orchestrator.Models.Json.{text, array, texts, Json, Fields, get}
use hermes_orchestrator.Models.Settings.{TextLibrary}
use hermes_orchestrator.Agents.Profiles.{
  SafeAgentProfile, allowed_policy_keys, role_execution_profile,
}
use hermes_orchestrator.Agents.Evaluation.{
  dangerous_fields, keys_subset, object_or_empty, budget_excess, rejected, unless,
}
use hermes_orchestrator.Agents.Policy.{
  limit_names, evaluate_budget, evaluate_fields, evaluate_policy_set, approved_by, within_limits,
}
use hermes_orchestrator.Agents.Policy.Within.{
  ListWithin, AbsentOr, AbsentIn, BudgetWithin, sequence_within-ListWithin, absent_or_text-AbsentOr,
  absent_or_only-AbsentOr, absent_or_in-AbsentIn, keys_subset-in, budget_excess-BudgetWithin,
}
use hermes_orchestrator.Agents.Policy.Passed.{
  Approves, rejected-approve, unless-approve, sensitive-approve, within_limits-approve, name_passed,
}

-- The policy of an agent within a profile.
pub record PolicyWithin (lib : TextLibrary) (profile : SafeAgentProfile) (policy_set : Fields)
    : Type 0 where
  pub keys :
      (key : String) (value : Json)
      → get key policy_set ≡ some value
      → str_in key allowed_policy_keys ≡ true
  pub harmless : dangerous_fields lib policy_set ≡ none
  pub name : String
  pub named : get "name" policy_set ≡ some (text name)
  pub name_allowed : str_in name profile.policy_names ≡ true
  pub model :
      AbsentOr
        (get "execution_profile_default" policy_set)
        (text (role_execution_profile profile.role))
  pub models :
      AbsentOr
        (get "allowed_profiles" policy_set)
        (array (texts (role_execution_profile profile.role ∷ [])))
  pub toolsets : ListWithin (get "toolsets" policy_set) profile.toolsets
  pub mcp_tools : ListWithin (get "mcp_tools" policy_set) profile.mcp_tools
  pub communication : ListWithin (get "communication" policy_set) profile.communication
  pub mounts : AbsentIn (get "mount_profile" policy_set) profile.mount_profiles
  pub budget : Fields
  pub budgeted : object_or_empty (get "budget" policy_set) ≡ some budget
  pub within : BudgetWithin profile.budget_limits budget

budget_passed :
    (lib : TextLibrary) (profile : SafeAgentProfile) (o : Option Fields)
    → Approves (elim o [
      | none ↦ rejected "budget_not_allowlisted" "Presupuesto fuera del perfil firmado"
      | some budget ↦
          unless
            (keys_subset budget (limit_names profile))
            "budget_not_allowlisted"
            "Presupuesto fuera del perfil firmado"
            (within_limits (budget_excess profile.budget_limits budget) (approved_by lib profile))
    ])
    → (budget : Fields) × (o ≡ some budget) × BudgetWithin profile.budget_limits budget
budget_passed lib profile none h = rejected-approve _ _ h
budget_passed lib profile (some budget) h =
    let (limited, h1) = unless-approve _ _ _ _ h in
    (
      budget,
      refl,
      budget_excess-BudgetWithin profile.budget_limits budget (within_limits-approve _ _ h1),
    )

evaluate_budget-approve :
    (lib : TextLibrary) (profile : SafeAgentProfile) (policy_set : Fields)
    → Approves (evaluate_budget lib profile policy_set)
    → (budget : Fields) × (object_or_empty (get "budget" policy_set) ≡ some budget)
      × BudgetWithin profile.budget_limits budget
unfolding evaluate_budget
evaluate_budget-approve lib profile policy_set h =
    budget_passed lib profile (object_or_empty (get "budget" policy_set)) h

evaluate_fields-approve :
    (lib : TextLibrary) (profile : SafeAgentProfile) (policy_set : Fields)
    → keys_subset policy_set allowed_policy_keys ≡ true
    → dangerous_fields lib policy_set ≡ none
    → Approves (evaluate_fields lib profile policy_set)
    → PolicyWithin lib profile policy_set
unfolding evaluate_fields
evaluate_fields-approve lib profile policy_set keys harmless h0 =
    let (name, h1) = unless-approve _ _ _ _ h0 in
    let (model, h2) = unless-approve _ _ _ _ h1 in
    let (models, h3) = unless-approve _ _ _ _ h2 in
    let (toolsets, h4) = unless-approve _ _ _ _ h3 in
    let (mcp_tools, h5) = unless-approve _ _ _ _ h4 in
    let (communication, h6) = unless-approve _ _ _ _ h5 in
    let (mounts, h7) = unless-approve _ _ _ _ h6 in
    let (budget, budgeted, within) = evaluate_budget-approve lib profile policy_set h7 in
    let (given, named, allowed) = name_passed profile.policy_names (get "name" policy_set) name in
    record {
      keys = λ key value. keys_subset-in policy_set allowed_policy_keys key value keys;
      harmless = harmless;
      name = given;
      named = named;
      name_allowed = allowed;
      model = absent_or_text-AbsentOr _ _ model;
      models = absent_or_only-AbsentOr _ _ models;
      toolsets = sequence_within-ListWithin _ _ toolsets;
      mcp_tools = sequence_within-ListWithin _ _ mcp_tools;
      communication = sequence_within-ListWithin _ _ communication;
      mounts = absent_or_in-AbsentIn _ _ mounts;
      budget = budget;
      budgeted = budgeted;
      within = within;
    }

pub evaluate_policy_set-approve :
    (lib : TextLibrary) (profile : SafeAgentProfile) (o : Option Fields)
    → Approves (evaluate_policy_set lib profile o)
    → (policy_set : Fields) × (o ≡ some policy_set) × PolicyWithin lib profile policy_set
unfolding evaluate_policy_set
evaluate_policy_set-approve lib profile none h = rejected-approve _ _ h
evaluate_policy_set-approve lib profile (some policy_set) h =
    let (keys, h1) = unless-approve _ _ _ _ h in
    let (harmless, h2) = sensitive-approve _ _ h1 in
    (policy_set, refl, evaluate_fields-approve lib profile policy_set keys harmless h2)
