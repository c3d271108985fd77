-- ===== src/Agents/Profiles.antt =====
-- The safe profiles of agent_policy.py and its lists of keys and markers.
use hermes_orchestrator.Prelude.{ℕ, String, none, some, List, [], ◌∷◌}
use hermes_orchestrator.Models.Json.{
  Items, nil, cons, Fields, end, field, text, number, array, texts,
}
use hermes_orchestrator.Policy.Permissions.{lookup}

pub record SafeAgentProfile : Type 0 where
  pub profile_id : String
  pub role : String
  pub slug_prefix : String
  pub policy_names : List String
  pub capabilities : List String
  pub secret_refs : List String
  pub toolsets : List String
  pub mcp_tools : List String
  pub communication : List String
  pub mount_profiles : List String
  pub budget_limits : List (String × ℕ)
  pub max_active_role : ℕ

abbrev pub data_steward_profile : SafeAgentProfile
data_steward_profile = record {
  profile_id = "data-steward-v3";
  role = "data_steward";
  slug_prefix = "data-steward-";
  policy_names = "data-minimal" ∷ "data-read-only" ∷ "data-steward-v3" ∷ [];
  capabilities =
      "dataset_read" ∷ "git_read" ∷ "git_write_branch" ∷ "github_pr_create" ∷ "knowledge_read"
      ∷ "knowledge_write_branch" ∷ "task_block" ∷ "task_comment" ∷ "task_complete" ∷ "task_read"
      ∷ [];
  secret_refs = "secret://codex/broker-client" ∷ "secret://github/shared-agent" ∷ [];
  toolsets = "terminal_read" ∷ "files_read" ∷ "git" ∷ "mcp" ∷ [];
  mcp_tools = "task_get" ∷ "task_comment" ∷ "task_block" ∷ "task_complete" ∷ [];
  communication = "agent:leader" ∷ "agent:researcher" ∷ "agent:validator" ∷ [];
  mount_profiles = "tradix-dataset-readonly" ∷ "knowledge-branch-workspace" ∷ [];
  budget_limits =
      ("hard_token_limit", 500000)
      ∷ ("max_concurrent_runs", 1)
      ∷ ("max_iterations", 8)
      ∷ ("max_sources", 25)
      ∷ [];
  max_active_role = 2;
}

abbrev pub risk_manager_profile : SafeAgentProfile
risk_manager_profile = record {
  profile_id = "risk-manager-v3";
  role = "risk_manager";
  slug_prefix = "risk-manager-";
  policy_names = "risk-manager-v3" ∷ [];
  capabilities =
      "dataset_read" ∷ "git_read" ∷ "git_write_branch" ∷ "github_pr_create" ∷ "knowledge_read"
      ∷ "knowledge_write_branch" ∷ "metrics_read" ∷ "task_block" ∷ "task_comment" ∷ "task_complete"
      ∷ "task_read" ∷ [];
  secret_refs = "secret://codex/broker-client" ∷ "secret://github/shared-agent" ∷ [];
  toolsets = "terminal_read" ∷ "files_read" ∷ "git" ∷ "mcp" ∷ [];
  mcp_tools = "task_get" ∷ "task_comment" ∷ "task_block" ∷ "task_complete" ∷ [];
  communication = "agent:leader" ∷ "agent:trader" ∷ "agent:researcher" ∷ "agent:validator" ∷ [];
  mount_profiles = "risk-knowledge-dataset-tradix-readonly" ∷ [];
  budget_limits =
      ("hard_token_limit", 750000)
      ∷ ("max_concurrent_runs", 1)
      ∷ ("max_iterations", 10)
      ∷ ("max_sources", 30)
      ∷ [];
  max_active_role = 1;
}

abbrev pub trader_profile : SafeAgentProfile
trader_profile = record {
  profile_id = "trader-v3";
  role = "trader";
  slug_prefix = "trader-";
  policy_names = "trader-v3" ∷ [];
  capabilities =
      "dataset_read" ∷ "git_read" ∷ "git_write_branch" ∷ "github_pr_create" ∷ "knowledge_read"
      ∷ "knowledge_write_branch" ∷ "market_data_read" ∷ "metrics_read" ∷ "signals_read"
      ∷ "task_block" ∷ "task_comment" ∷ "task_complete" ∷ "task_read" ∷ [];
  secret_refs = "secret://codex/broker-client" ∷ "secret://github/shared-agent" ∷ [];
  toolsets = "terminal_read" ∷ "files_read" ∷ "git" ∷ "mcp" ∷ [];
  mcp_tools = "task_get" ∷ "task_comment" ∷ "task_block" ∷ "task_complete" ∷ [];
  communication =
      "agent:leader" ∷ "agent:risk_manager" ∷ "agent:researcher" ∷ "agent:validator" ∷ [];
  mount_profiles = "trader-knowledge-dataset-tradix-readonly" ∷ [];
  budget_limits =
      ("hard_token_limit", 750000)
      ∷ ("max_concurrent_runs", 1)
      ∷ ("max_iterations", 10)
      ∷ ("max_sources", 30)
      ∷ [];
  max_active_role = 1;
}

-- `SAFE_AGENT_PROFILES`
abbrev pub safe_agent_profiles : List (String × SafeAgentProfile)
safe_agent_profiles =
    ("data_steward", data_steward_profile)
    ∷ ("risk_manager", risk_manager_profile)
    ∷ ("trader", trader_profile)
    ∷ []

-- `ALLOWED_POLICY_KEYS`
abbrev pub allowed_policy_keys : List String
allowed_policy_keys =
    "allowed_profiles" ∷ "budget" ∷ "communication" ∷ "execution_profile_default" ∷ "mcp_tools"
    ∷ "mount_profile" ∷ "name" ∷ "toolsets" ∷ []

-- `DANGEROUS_MARKERS`
abbrev pub dangerous_markers : List String
dangerous_markers =
    "capital" ∷ "command" ∷ "docker" ∷ "entrypoint" ∷ "environment_promote" ∷ "host_network"
    ∷ "live_trade" ∷ "network_mode" ∷ "order_submit" ∷ "pid_mode" ∷ "privileged" ∷ "secret_admin"
    ∷ "socket" ∷ []

-- `role_execution_profile` of provisioning.py
unfoldable pub role_execution_profile : String → String
role_execution_profile role =
    elim (lookup role (("risk_manager", "astra-medium") ∷ ("trader", "astra-medium") ∷ [])) [
      | none ↦ "sol-high"
      | some profile ↦ profile
    ]

limit_items : List (String × ℕ) → Items
limit_items [] = nil
limit_items ((name, limit) ∷ rest) =
    cons (array (cons (text name) (cons (number limit) nil))) (limit_items rest)

-- `asdict(profile)`
pub profile_fields : SafeAgentProfile → Fields
unfolding limit_items
profile_fields p = field "profile_id" (text p.profile_id) (
    field "role" (text p.role) (
      field "slug_prefix" (text p.slug_prefix) (
        field "policy_names" (array (texts p.policy_names)) (
          field "capabilities" (array (texts p.capabilities)) (
            field "secret_refs" (array (texts p.secret_refs)) (
              field "toolsets" (array (texts p.toolsets)) (
                field "mcp_tools" (array (texts p.mcp_tools)) (
                  field "communication" (array (texts p.communication)) (
                    field "mount_profiles" (array (texts p.mount_profiles)) (
                      field "budget_limits" (array (limit_items p.budget_limits))
                        (field "max_active_role" (number p.max_active_role) end)))))))))))
