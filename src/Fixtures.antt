-- ===== src/Fixtures.antt =====
-- Concrete settings, rows and sessions for the tests of the components.
use hermes_orchestrator.Prelude.{ℕ, Bool, true, false, none, some, List, [], ◌∷◌, or_else}
use hermes_orchestrator.Models.Json.{end, field, get, as_text, number}
use hermes_orchestrator.Models.Status.{RunStatus, TaskStatus, ApprovalStatus}
use hermes_orchestrator.Models.Rows.{Task, Run, Approval, Budget}
use hermes_orchestrator.Models.Settings.{Settings, TextLibrary}
use hermes_orchestrator.Store.Exec.{Db, Session, Result, ok, err}

abbrev pub settings : Settings
settings = record {
  actor_roles = ("ana", "owner") ∷ ("oscar", "operator") ∷ ("tara", "trader") ∷ [];
  usage_project_id = "hermes";
  usage_window_seconds = 86400;
  usage_soft_token_limit = 800000;
  usage_hard_token_limit = 1000000;
  usage_max_concurrent_runs = 4;
  usage_max_fan_out = 3;
  usage_max_retries = 2;
  usage_circuit_failure_threshold = 3;
  usage_circuit_cooldown_seconds = 600;
  agent_policy_enabled = true;
  agent_policy_actor_id = "system:agent-policy";
  agent_policy_allowed_roles = "data_steward" ∷ "risk_manager" ∷ "trader" ∷ [];
  agent_policy_max_active_agents = 6;
  environment_allowed_repositories = "org/app" ∷ [];
  environment_local_port_start = 22000;
  environment_local_port_end = 22001;
  environment_local_default_ttl_seconds = 14400;
  environment_local_max_ttl_seconds = 86400;
}

-- A digest that tells objectives and workers apart, which is what the tests need.
abbrev pub library : TextLibrary
library = record {
  digest = λ fields. or_else (as_text (get "objective" fields)) "digest";
  decimal = λ s. none;
  from_iso = λ s. none;
  uuid_text = λ i. "id";
  lower = λ s. s;
  dump = λ fields. "handoff";
  load = λ s. none;
  same = λ a b. false;
}

-- A task that another actor is to review.
abbrev pub task_in : TaskStatus → Task
task_in status = record {
  id = 1;
  operation_id = 9;
  parent_task_id = none;
  workflow_ref = none;
  requester_actor_id = "ana";
  assignee_actor_id = some "wanda";
  reviewer_actor_id = some "rita";
  priority = 5;
  status = status;
  idempotency_key = "task-key";
  request_hash = "report";
  objective = "report";
  acceptance_criteria = [];
  budget = field "max_retries" (number 1) end;
  references = [];
  independent_review = true;
  deadline_at = none;
  cancel_idempotency_key = none;
}

abbrev pub run_in : RunStatus → Run
run_in status = record {
  id = 7;
  task_id = 1;
  operation_id = 9;
  attempt_number = 1;
  worker_actor_id = "wanda";
  requested_profile_id = "standard";
  effective_profile_id = none;
  dispatch_idempotency_key = "run-key";
  dispatch_hash = "digest";
  status = status;
  dispatch_attempts = 0;
  next_attempt_at = 0;
  lease_owner = none;
  lease_acquired_at = none;
  lease_expires_at = none;
  heartbeat_at = none;
  timeout_at = 5000;
  started_at = none;
  finished_at = none;
  error_code = none;
  summary = none;
  worker_run_id = none;
  requested_runtime = end;
  observed_runtime = end;
  runtime_fallback = end;
  usage_snapshot = end;
  error_details = end;
  created_at = 10;
}

-- The run with a lease of the dispatcher "d1" until 500.
abbrev pub leased_run : Run
leased_run = record (run_in RunStatus.running) {
  lease_owner = some "d1";
  lease_acquired_at = some 100;
  lease_expires_at = some 500;
  heartbeat_at = some 100;
}

-- A pending approval of the run's dispatch.
abbrev pub approval_row : Approval
approval_row = record {
  id = 20;
  run_id = 7;
  action = "dispatch";
  context_snapshot = end;
  status = ApprovalStatus.pending;
  requested_by_actor_id = "ana";
  expires_at = 9000;
  decided_by_actor_id = none;
  decision_reason = none;
  decision_idempotency_key = none;
  decided_at = none;
  created_at = 10;
}

abbrev pub budget_row : Budget
budget_row = record {
  id = 30;
  scope_type = "agent";
  scope_key = "wanda";
  window_seconds = 3600;
  soft_token_limit = none;
  hard_token_limit = some 500000;
  max_concurrent_runs = some 2;
  max_fan_out = none;
  max_retries = none;
  circuit_failure_threshold = none;
  circuit_cooldown_seconds = none;
  enabled = true;
}

abbrev pub db_with : List Task → List Run → List Approval → Db
db_with tasks runs approvals = record {
  agents = [];
  agent_instances = [];
  execution_profiles = [];
  communication_edges = [];
  audit_events = [];
  tasks = tasks;
  task_dependencies = [];
  task_comments = [];
  runs = runs;
  approvals = approvals;
  usage_ledger = [];
  budgets = budget_row ∷ [];
  circuit_breakers = [];
  environment_deployments = [];
  environment_actions = [];
  agent_requests = [];
  next_id = 100;
}

-- A session at time 200 on a stored database.
abbrev pub session_of : Db → Session
session_of d = record { current = d; committed = d; clock = 200 }

-- The value of an action that returned.
abbrev pub result_or : {A : Type 0} → Result A → A → A
result_or (ok a) d = a
result_or (err e) d = d

abbrev pub none_locked : ℕ → Bool
none_locked i = false

-- A run that has ended.
abbrev pub ended_run : Run
ended_run = record (run_in RunStatus.timed_out) {
  finished_at = some 150;
  error_code = some "timeout";
}

abbrev pub ended : Session
ended =
    session_of (db_with (task_in TaskStatus.timed_out ∷ []) (ended_run ∷ []) (approval_row ∷ []))
