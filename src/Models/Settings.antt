-- ===== src/Models/Settings.antt =====
-- The part of config.py that the modelled services read, and what they take from Python's library.
use hermes_orchestrator.Prelude.{ℕ, Bool, String, Option, List, ◌*◌}
use hermes_orchestrator.Models.Json.{Fields}

pub record Settings : Type 0 where
  pub actor_roles : List (String × String)
  pub usage_project_id : String
  pub usage_window_seconds : ℕ
  pub usage_soft_token_limit : ℕ
  pub usage_hard_token_limit : ℕ
  pub usage_max_concurrent_runs : ℕ
  pub usage_max_fan_out : ℕ
  pub usage_max_retries : ℕ
  pub usage_circuit_failure_threshold : ℕ
  pub usage_circuit_cooldown_seconds : ℕ
  pub agent_policy_enabled : Bool
  pub agent_policy_actor_id : String
  pub agent_policy_allowed_roles : List String
  pub agent_policy_max_active_agents : ℕ
  pub environment_allowed_repositories : List String
  pub environment_local_port_start : ℕ
  pub environment_local_port_end : ℕ
  pub environment_local_default_ttl_seconds : ℕ
  pub environment_local_max_ttl_seconds : ℕ

-- Functions on texts that the services call and that are not the program's own. `digest` is the
-- SHA-256 of a dictionary's canonical text (`stable_hash`, `_stable_hash`, `_hash`), `decimal` reads a
-- non-negative `Decimal` as millionths (NaN is no text that it reads), and `from_iso` is
-- `datetime.fromisoformat` of the text with `Z` as `+00:00`; `uuid_text` is `str` of an identifier
-- and `lower` is `str.lower`. `dump` is `json.dumps` with sorted keys, `load` is `json.loads` where it
-- returns a dictionary, with the texts of identifiers as `uuid`, and `same` is `==` of dictionaries.
pub record TextLibrary : Type 0 where
  pub digest : Fields → String
  pub decimal : String → Option ℕ
  pub from_iso : String → Option ℕ
  pub uuid_text : ℕ → String
  pub lower : String → String
  pub dump : Fields → String
  pub load : String → Option Fields
  pub same : Fields → Fields → Bool

-- `timedelta(seconds=n)`, in microseconds
abbrev pub seconds : ℕ → ℕ
seconds n = n * 1000000
