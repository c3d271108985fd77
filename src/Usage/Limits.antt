-- ===== src/Usage/Limits.antt =====
-- `ControlLimits`, `_min_limit` and `resolve_limits` of usage_services.py.
pub mod Narrowing
pub mod Order
use hermes_orchestrator.Prelude.{
  ℕ, zero, suc, min, Bool, ◌&&◌, ◌||◌, String, Option, none, some, List, [], ◌∷◌, str_eq, filter,
  or_else, text_or,
}
use hermes_orchestrator.Models.Json.{Fields, get, as_natural}
use hermes_orchestrator.Models.Rows.{Task, Budget}
use hermes_orchestrator.Models.Settings.{Settings}

pub record ControlLimits : Type 0 where
  pub window_seconds : ℕ
  pub soft_token_limit : Option ℕ
  pub hard_token_limit : Option ℕ
  pub max_concurrent_runs : ℕ
  pub max_fan_out : ℕ
  pub max_retries : ℕ
  pub circuit_failure_threshold : ℕ
  pub circuit_cooldown_seconds : ℕ

-- The dictionary `values`, from a field's name to its limit or `None`.
pub record Values : Type 0 where
  pub window_seconds : Option ℕ
  pub soft_token_limit : Option ℕ
  pub hard_token_limit : Option ℕ
  pub max_concurrent_runs : Option ℕ
  pub max_fan_out : Option ℕ
  pub max_retries : Option ℕ
  pub circuit_failure_threshold : Option ℕ
  pub circuit_cooldown_seconds : Option ℕ

abbrev pub min_limit : Option ℕ → Option ℕ → Option ℕ
min_limit current none = current
min_limit none (some candidate) = some candidate
min_limit (some current) (some candidate) = some (min current candidate)

abbrev pub settings_values : Settings → Values
settings_values s = record {
  window_seconds = some s.usage_window_seconds;
  soft_token_limit = some s.usage_soft_token_limit;
  hard_token_limit = some s.usage_hard_token_limit;
  max_concurrent_runs = some s.usage_max_concurrent_runs;
  max_fan_out = some s.usage_max_fan_out;
  max_retries = some s.usage_max_retries;
  circuit_failure_threshold = some s.usage_circuit_failure_threshold;
  circuit_cooldown_seconds = some s.usage_circuit_cooldown_seconds;
}

abbrev pub budget_values : Budget → Values
budget_values b = record {
  window_seconds = some b.window_seconds;
  soft_token_limit = b.soft_token_limit;
  hard_token_limit = b.hard_token_limit;
  max_concurrent_runs = b.max_concurrent_runs;
  max_fan_out = b.max_fan_out;
  max_retries = b.max_retries;
  circuit_failure_threshold = b.circuit_failure_threshold;
  circuit_cooldown_seconds = b.circuit_cooldown_seconds;
}

-- `_integer(task.budget.get(field))` for each field
pub task_values : Fields → Values
task_values budget = record {
  window_seconds = as_natural (get "window_seconds" budget);
  soft_token_limit = as_natural (get "soft_token_limit" budget);
  hard_token_limit = as_natural (get "hard_token_limit" budget);
  max_concurrent_runs = as_natural (get "max_concurrent_runs" budget);
  max_fan_out = as_natural (get "max_fan_out" budget);
  max_retries = as_natural (get "max_retries" budget);
  circuit_failure_threshold = as_natural (get "circuit_failure_threshold" budget);
  circuit_cooldown_seconds = as_natural (get "circuit_cooldown_seconds" budget);
}

-- The loop over the fields.
pub narrow : Values → Values → Values
narrow v c = record {
  window_seconds = min_limit v.window_seconds c.window_seconds;
  soft_token_limit = min_limit v.soft_token_limit c.soft_token_limit;
  hard_token_limit = min_limit v.hard_token_limit c.hard_token_limit;
  max_concurrent_runs = min_limit v.max_concurrent_runs c.max_concurrent_runs;
  max_fan_out = min_limit v.max_fan_out c.max_fan_out;
  max_retries = min_limit v.max_retries c.max_retries;
  circuit_failure_threshold = min_limit v.circuit_failure_threshold c.circuit_failure_threshold;
  circuit_cooldown_seconds = min_limit v.circuit_cooldown_seconds c.circuit_cooldown_seconds;
}

-- The `enabled` budgets whose scope is among `matching_scopes`.
abbrev pub budget_matches : Task → String → String → Settings → Budget → Bool
budget_matches task worker profile settings b =
    b.enabled
    && ((str_eq b.scope_type "global" && str_eq b.scope_key "*")
        || (str_eq b.scope_type "project" && str_eq b.scope_key settings.usage_project_id)
        || (str_eq b.scope_type "agent" && str_eq b.scope_key worker)
        || (str_eq b.scope_type "profile" && str_eq b.scope_key profile)
        || (str_eq b.scope_type "category"
            && str_eq b.scope_key (text_or task.workflow_ref "uncategorized")))

-- The loop over the budgets.
pub narrow_all : Values → List Budget → Values
narrow_all v [] = v
narrow_all v (b ∷ bs) = narrow_all (narrow v (budget_values b)) bs

-- `value or default`: `None` and 0 are falsy.
abbrev pub or_default : Option ℕ → ℕ → ℕ
or_default none d = d
or_default (some zero) d = d
or_default (some (suc n)) d = suc n

pub to_limits : Settings → Values → ControlLimits
to_limits settings v = record {
  window_seconds = or_default v.window_seconds settings.usage_window_seconds;
  soft_token_limit = v.soft_token_limit;
  hard_token_limit = v.hard_token_limit;
  max_concurrent_runs = or_default v.max_concurrent_runs 1;
  max_fan_out = or_default v.max_fan_out 1;
  max_retries = or_else v.max_retries 0;
  circuit_failure_threshold = or_default v.circuit_failure_threshold 1;
  circuit_cooldown_seconds = or_default v.circuit_cooldown_seconds 1;
}

unfoldable pub resolve_limits : List Budget → Task → String → String → Settings → ControlLimits
unfolding task_values narrow narrow_all to_limits
resolve_limits budgets task worker profile settings = to_limits settings (
    narrow
      (narrow_all (settings_values settings)
        (filter (budget_matches task worker profile settings) budgets))
      (task_values task.budget))
