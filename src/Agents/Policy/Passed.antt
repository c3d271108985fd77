-- ===== src/Agents/Policy/Passed.antt =====
-- What an approval says of the tests that come before it.
use hermes_orchestrator.Prelude.{
  if_true, if_false, ℕ, ltb, sym, ◌∙◌, if◌then◌else◌, ap, Bool-cases, ◌<◌, ◌≡◌, ◌≢◌, refl, Bool,
  true, false, not, String, Option, none, some, List, arith, eq_iff, str_eq, str_in, strip_prefix,
  is_some, some_and, Option-cases, inl, inr,
}
use hermes_orchestrator.Models.Json.{text, Json, as_text}
use hermes_orchestrator.Models.Settings.{Settings}
use hermes_orchestrator.Policy.Permissions.{lookup}
use hermes_orchestrator.Agents.Profiles.{SafeAgentProfile, safe_agent_profiles}
use hermes_orchestrator.Agents.Evaluation.{PolicyAction, AgentPolicyDecision, rejected, unless}
use hermes_orchestrator.Agents.Policy.{sensitive, slug_within, safe_profile, within_limits}
use hermes_orchestrator.Agents.Policy.Within.{as_text-text}

unfoldable pub is_approve : PolicyAction → Bool
is_approve PolicyAction.approve = true
is_approve PolicyAction.reject = false
is_approve PolicyAction.defer = false

unfoldable pub Approves : AgentPolicyDecision → Type 0
Approves decision = is_approve decision.action ≡ true

pub rejected-approve : {A : Type 0} (code reason : String) → Approves (rejected code reason) → A
unfolding Approves is_approve
rejected-approve code reason h = cc

pub not_passed : (b : Bool) → not b ≡ true → b ≡ false
not_passed b h = ground arith

pub other_passed : (a b : String) → not (str_eq a b) ≡ true → a ≢ b
other_passed a b h same = ground (arith, eq_iff a b)

pub ltb_passed : (a b : ℕ) → ltb a b ≡ true → a < b
ltb_passed a b h = ground arith

-- A test that was passed.
pub unless-approve :
    (passes : Bool) (code reason : String) (rest : AgentPolicyDecision)
    → Approves (unless passes code reason rest)
    → (passes ≡ true) × Approves rest
unfolding Approves is_approve
unless-approve true code reason rest h = (refl, h)
unless-approve false code reason rest h = cc

pub sensitive-approve :
    (marker : Option String) (rest : AgentPolicyDecision)
    → Approves (sensitive marker rest)
    → (marker ≡ none) × Approves rest
unfolding sensitive Approves is_approve
sensitive-approve none rest h = (refl, h)
sensitive-approve (some m) rest h = cc

pub within_limits-approve :
    (excess : Option String) (rest : AgentPolicyDecision)
    → Approves (within_limits excess rest)
    → excess ≡ none
unfolding within_limits Approves is_approve
within_limits-approve none rest h = refl
within_limits-approve (some key) rest h = cc

pub name_passed :
    (names : List String) (value : Option Json)
    → some_and (λ name. str_in name names) (as_text value) ≡ true
    → (name : String) × (value ≡ some (text name)) × (str_in name names ≡ true)
name_passed names value h = elim (Option-cases (as_text value)) [
  | inl missing ↦ absurd (ground arith)
  | inr (name, given) ↦ (name, as_text-text value name given, ground arith)
]

pub slug_within_of :
    (profile : SafeAgentProfile) (o : Option String) (slug : String)
    → some slug ≡ slug_within profile o
    → (o ≡ some slug) × (is_some (strip_prefix profile.slug_prefix slug) ≡ true)
unfolding slug_within
slug_within_of profile none slug h = absurd (ground arith)
slug_within_of profile (some x) slug h = ground arith

pub safe_profile_of :
    (settings : Settings) (role : String) (profile : SafeAgentProfile)
    → safe_profile settings (some role) ≡ some profile
    → (str_in role settings.agent_policy_allowed_roles ≡ true)
      × (lookup role safe_agent_profiles ≡ some profile)
unfolding safe_profile
safe_profile_of settings role profile h =
    elim (Bool-cases (str_in role settings.agent_policy_allowed_roles)) [
      | inl allowed ↦ (allowed, sym (if_true _ _ _ allowed) ∙ h)
      | inr other ↦ absurd (cc (sym (if_false _ _ _ other) ∙ h))
    ]

pub enabled_passed :
    (b : Bool) (x y : AgentPolicyDecision)
    → Approves (if b then x else y)
    → is_approve y.action ≡ false
    → (b ≡ true) × Approves x
unfolding Approves
enabled_passed true x y h off = (refl, h)
enabled_passed false x y h off = cc

pub approved_action :
    (decision : AgentPolicyDecision) → decision.action ≡ PolicyAction.approve → Approves decision
unfolding Approves is_approve
approved_action decision h = ap is_approve h
