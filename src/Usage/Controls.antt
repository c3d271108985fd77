-- ===== src/Usage/Controls.antt =====
-- `enforce_dispatch_controls` and `_deny` of usage_services.py.
pub mod Budgets
use hermes_orchestrator.Prelude.{
  ℕ, zero, suc, ◌+◌, ◌-◌, ◌/◌, max, Bool, true, false, ◌&&◌, ◌||◌, not, String, Option, none, some,
  List, [], ◌∷◌, str_eq, str_in, leb, ltb, ◌==◌, find, filter, count, or_else, some_and, first_some,
  remove_prefix, if◌then◌else◌,
}
use hermes_orchestrator.Models.Json.{
  Json, Items, Fields, end, field, get, text, number, opt_number, as_natural, as_array, items_have,
}
use hermes_orchestrator.Models.Status.{
  RunStatus, CircuitState, closed, opened, QuotaStatus, available, exhausted, is_active, is_open,
  is_exhausted,
}
use hermes_orchestrator.Models.Rows.{
  Agent, ExecutionProfile, Task, Run, UsageLedger, CircuitBreaker, AuditEvent,
}
use hermes_orchestrator.Models.Settings.{Settings, seconds}
use hermes_orchestrator.Store.Table
use hermes_orchestrator.Store.Exec.{
  Db, Exec, Exception, Code, pure, raise, gets, when, commit, effective_time, add_audit, Task-Keyed,
  ◌>>=◌, ◌>>◌, code_text,
}
use hermes_orchestrator.Usage.Limits.{ControlLimits, resolve_limits}
use hermes_orchestrator.Usage.Circuit.{is_circuit_of}
use hermes_orchestrator.Usage.Ledger.{profile_of, largest}

-- `math.ceil` of a span in seconds; a negative span is 0 here, and the callers take no less.
abbrev pub ceil_seconds : ℕ → ℕ
ceil_seconds span = (span + 999999) / 1000000

control_event : String → String → Task → Fields → AuditEvent
control_event actor_id event_type task payload = record {
  actor_id = actor_id;
  event_type = event_type;
  aggregate_type = "task";
  aggregate_id = task.id;
  payload = payload;
}

-- A reason to refuse a dispatch: its code, its HTTP status and when to try again.
pub record Denial : Type 0 where
  pub code : Code
  pub status_code : ℕ
  pub retry_after : Option ℕ

abbrev conflict : Code → Denial
conflict c = record { code = c; status_code = 409; retry_after = none }

-- `_deny`: the refusal is audited and committed before it is raised.
unfoldable pub deny : {A : Type 0} → String → Task → Denial → Exec A
unfolding control_event
deny actor_id task denial = do
  add_audit (
      control_event actor_id "dispatch.control_denied" task (
        field "code" (text (code_text denial.code))
          (field "retry_after" (opt_number denial.retry_after) end)))
  commit
  raise (Exception.control denial.code denial.status_code denial.retry_after)

-- `worker`: the active agent of that actor.
worker_agent : Db → String → Option Agent
worker_agent d worker =
    find (λ a. str_eq a.slug (remove_prefix "agent:" worker) && str_eq a.desired_state "active")
      d.agents

-- The profile is outside the list that the agent's policy has.
outside_policy : Option Agent → String → Bool
outside_policy none profile_id = false
outside_policy (some a) profile_id =
    some_and (λ xs. not (items_have profile_id xs)) (as_array (get "allowed_profiles" a.policy_set))

too_much_effort : ExecutionProfile → Bool
too_much_effort p =
    str_eq p.reasoning_effort "xhigh"
    || str_eq p.reasoning_effort "max"
    || str_eq p.reasoning_effort "ultra"

-- The checks of the profile and of the agent's policy.
unfoldable pub profile_denial : Db → String → String → Option Denial
unfolding worker_agent outside_policy too_much_effort
profile_denial d worker profile_id =
    if some_and (λ p. not p.enabled) (profile_of d profile_id)
    then some (record {
      code = Code.execution_profile_unavailable;
      status_code = 422;
      retry_after = none;
    })
    else if outside_policy (worker_agent d worker) profile_id
    then some
        (record { code = Code.execution_profile_denied; status_code = 403; retry_after = none })
    else if some_and too_much_effort (profile_of d profile_id)
    then some
        (record { code = Code.reasoning_effort_denied; status_code = 403; retry_after = none })
    else none

-- An open circuit of the worker and the profile.
open_circuit_of : Db → String → String → Option CircuitBreaker
open_circuit_of d worker profile_id =
    find (λ c. is_circuit_of worker profile_id c && is_open c.state) d.circuit_breakers

circuit_denial : ℕ → CircuitBreaker → Denial
circuit_denial now c = record {
  code = Code.circuit_open;
  status_code = 409;
  retry_after = elim c.reset_eligible_at [ none ↦ none | some t ↦ some (ceil_seconds (t - now)) ];
}

is_pending_quota : Settings → ℕ → UsageLedger → Bool
is_pending_quota settings now e =
    str_eq e.project_id settings.usage_project_id
    && is_exhausted e.quota_status
    && some_and (λ t. ltb now t) e.quota_reset_at

-- The exhausted quota of the project that is reset last, if one is still to be reset.
pending_quota : Db → Settings → ℕ → Option ℕ
unfolding is_pending_quota
pending_quota d settings now =
    elim (largest (λ (e : UsageLedger). or_else e.quota_reset_at 0)
      (filter (is_pending_quota settings now) d.usage_ledger)) [
        | none ↦ none
        | some e ↦ e.quota_reset_at
      ]

quota_denial : ℕ → ℕ → Denial
quota_denial now reset = record {
  code = Code.quota_exhausted;
  status_code = 429;
  retry_after = some (max 1 (ceil_seconds (reset - now)));
}

-- The runs of the task, whatever became of them.
abbrev pub attempts : Db → Task → ℕ
attempts d task = count (λ r. r.task_id == task.id) d.runs

abbrev pub active_runs : Db → ℕ
active_runs d = count (λ r. is_active r.status) d.runs

has_parent : ℕ → Option Task → Bool
has_parent parent = some_and λ t. some_and (λ p. p == parent) t.parent_task_id

-- The active runs of the children of one task.
pub active_children : Db → ℕ → ℕ
unfolding has_parent
active_children d parent =
    count (λ r. is_active r.status && has_parent parent (Table.get r.task_id d.tasks)) d.runs

-- `sum` of the token fields that are known.
unfoldable pub entry_tokens : UsageLedger → ℕ
entry_tokens e =
    or_else e.input_tokens 0
    + or_else e.output_tokens 0
    + or_else e.reasoning_tokens 0
    + or_else e.cache_read_tokens 0
    + or_else e.cache_write_tokens 0

unfoldable pub sum_tokens : List UsageLedger → ℕ
sum_tokens [] = 0
sum_tokens (e ∷ es) = entry_tokens e + sum_tokens es

-- The entries of the project within the window; `now - window` is moved to the other side.
in_window : Settings → ControlLimits → ℕ → UsageLedger → Bool
in_window settings limits now e =
    str_eq e.project_id settings.usage_project_id
    && leb now (e.created_at + seconds limits.window_seconds)

-- `projected`: the tokens consumed in the window and those that the task expects.
unfoldable pub projected_tokens : Db → Settings → ControlLimits → ℕ → Task → ℕ
unfolding in_window
projected_tokens d settings limits now task =
    sum_tokens (filter (in_window settings limits now) d.usage_ledger)
    + or_else (as_natural (get "estimated_tokens" task.budget)) 0

-- The checks of the load: retries, fan-out, concurrency and the hard budget.
unfoldable pub load_denial : Db → Task → Settings → ControlLimits → ℕ → Option Denial
load_denial d task settings limits now =
    if ltb limits.max_retries (attempts d task)
    then some (conflict Code.retry_limit_exceeded)
    else if some_and (λ parent. leb limits.max_fan_out (active_children d parent))
        task.parent_task_id
    then some (conflict Code.fan_out_limit_exceeded)
    else if leb limits.max_concurrent_runs (active_runs d)
    then some (conflict Code.concurrency_limit_exceeded)
    else if some_and (λ hard. leb hard (projected_tokens d settings limits now task))
        limits.hard_token_limit
    then some (conflict Code.budget_hard_exceeded)
    else none

-- The checks of the circuit and of the quota.
unfoldable pub outage_denial : Db → Settings → ℕ → String → String → Option Denial
unfolding open_circuit_of circuit_denial pending_quota quota_denial
outage_denial d settings now worker profile_id = elim (open_circuit_of d worker profile_id) [
  | some c ↦ some (circuit_denial now c)
  | none ↦ elim (pending_quota d settings now) [
    | none ↦ none
    | some reset ↦ some (quota_denial now reset)
  ]
]

-- The first check that refuses the dispatch; nothing is written between the checks.
unfoldable pub dispatch_denial :
    Db → Task → String → String → Settings → ControlLimits → ℕ → Option Denial
dispatch_denial d task worker profile_id settings limits now =
    first_some (profile_denial d worker profile_id) (
      first_some (outage_denial d settings now worker profile_id)
        (load_denial d task settings limits now))

unfoldable pub deny_if : String → Task → Option Denial → Exec Unit
unfolding deny
deny_if actor_id task none = pure tt
deny_if actor_id task (some denial) = deny actor_id task denial

-- The soft budget only leaves an audit event.
unfoldable pub soft_warning : Db → String → Task → Settings → ControlLimits → ℕ → Exec Unit
unfolding control_event
soft_warning d actor_id task settings limits now =
    when
      (some_and (λ soft. leb soft (projected_tokens d settings limits now task))
        limits.soft_token_limit)
      (add_audit (
        control_event actor_id "budget.soft_exceeded" task (
          field "consumed_tokens"
            (number (
              projected_tokens d settings limits now task
              - or_else (as_natural (get "estimated_tokens" task.budget)) 0))
            (field "projected_tokens" (number (projected_tokens d settings limits now task))
              (field "soft_token_limit" (opt_number limits.soft_token_limit) end)))))

unfoldable pub enforce_dispatch_controls :
    Task → String → String → String → Settings → Option ℕ → Exec ControlLimits
unfolding deny_if soft_warning
enforce_dispatch_controls task worker profile_id actor_id settings now = do
  effective_now ← effective_time now
  limits ← gets (λ d. resolve_limits d.budgets task worker profile_id settings)
  denial ← gets (λ d. dispatch_denial d task worker profile_id settings limits effective_now)
  deny_if actor_id task denial
  d ← gets (λ d. d)
  soft_warning d actor_id task settings limits effective_now
  pure limits
