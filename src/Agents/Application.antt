-- ===== src/Agents/Application.antt =====
-- `record_agent_request_application` and `retire_agent_request` of services.py.
use hermes_orchestrator.Prelude.{
  ℕ, Bool, true, false, ◌&&◌, not, String, Option, none, some, str_eq, ◌==◌, any, text_or,
  if◌then◌else◌,
}
use hermes_orchestrator.Models.Json.{Fields, end, field, text, opt_text}
use hermes_orchestrator.Models.Requests.{
  RequestStatus, AgentRequestRecord, admits_application, admits_retirement,
}
use hermes_orchestrator.Models.Settings.{TextLibrary}
use hermes_orchestrator.Store.Exec.{
  Exec, Exception, pure, raise_if, effective_time, save_request, ◌>>=◌, ◌>>◌,
}
use hermes_orchestrator.Usage.Circuit.{opt_str_eq}
use hermes_orchestrator.Agents.Requests.{
  RequestAgentResult, transition_audit, commit_or_conflict, conflicts, get_agent_request,
}

-- What the provisioner did: it applied the request, or failed with a code and a detail.
pub data Outcome : Type 0 where
  applied : Outcome
  failed : Option String → Option String → Outcome

abbrev pub outcome_fields : Outcome → Fields
outcome_fields applied =
    field "outcome" (text "applied")
      (field "error_code" (opt_text none) (field "error_detail" (opt_text none) end))
outcome_fields (failed error_code error_detail) =
    field "outcome" (text "failed")
      (field "error_code" (opt_text error_code) (field "error_detail" (opt_text error_detail) end))

-- `outcome == "failed" and not error_code`
abbrev pub lacks_code : Outcome → Bool
lacks_code applied = false
lacks_code (failed error_code error_detail) = str_eq (text_or error_code "") ""

unfoldable pub applied_request :
    AgentRequestRecord → String → String → String → Outcome → ℕ → AgentRequestRecord
applied_request r actor_id idempotency_key command_hash applied now = record r {
  status = RequestStatus.applied;
  application_idempotency_key = some idempotency_key;
  application_hash = some command_hash;
  applied_by_actor_id = some actor_id;
  applied_at = some now;
  application_error_code = none;
  application_error_detail = none;
}
applied_request r actor_id idempotency_key command_hash (failed error_code error_detail) now =
    record r {
      status = RequestStatus.apply_failed;
      application_idempotency_key = some idempotency_key;
      application_hash = some command_hash;
      applied_by_actor_id = some actor_id;
      applied_at = none;
      application_error_code = error_code;
      application_error_detail = error_detail;
    }

abbrev applied_event : Outcome → String
applied_event applied = "agent.request_applied"
applied_event (failed error_code error_detail) = "agent.request_apply_failed"

unfoldable pub apply_new :
    AgentRequestRecord → String → String → String → Outcome → Exec RequestAgentResult
unfolding applied_request
apply_new r actor_id idempotency_key command_hash outcome = do
  raise_if (not (admits_application r.status)) (Exception.agent_request "invalid_transition" 409)
  raise_if (lacks_code outcome) (Exception.agent_request "application_error_required" 422)
  now ← effective_time none
  let done = applied_request r actor_id idempotency_key command_hash outcome now
  save_request done
  transition_audit done actor_id (applied_event outcome) r.status idempotency_key
      (field "error_code" (opt_text done.application_error_code) end)
  commit_or_conflict (λ d.
      any
        (λ (x : AgentRequestRecord).
          not (x.id == r.id) && opt_str_eq x.application_idempotency_key (some idempotency_key))
        d.agent_requests)
  pure (record { request = done; replayed = false })

unfoldable pub apply_row :
    AgentRequestRecord → String → String → String → Outcome → Exec RequestAgentResult
unfolding apply_new
apply_row r actor_id idempotency_key command_hash outcome =
    if opt_str_eq r.application_idempotency_key (some idempotency_key)
    then (do
      raise_if (conflicts r.application_hash command_hash r.applied_by_actor_id actor_id)
          Exception.agent_conflict
      pure (record { request = r; replayed = true }))
    else apply_new r actor_id idempotency_key command_hash outcome

unfoldable pub record_agent_request_application :
    TextLibrary → ℕ → String → String → Outcome → Exec RequestAgentResult
unfolding apply_row
record_agent_request_application lib request_id actor_id idempotency_key outcome = do
  r ← get_agent_request request_id
  apply_row r actor_id idempotency_key (lib.digest (outcome_fields outcome)) outcome

unfoldable pub retired_request :
    AgentRequestRecord → String → String → String → String → ℕ → AgentRequestRecord
retired_request r actor_id idempotency_key command_hash reason now = record r {
  status = RequestStatus.retired;
  retirement_idempotency_key = some idempotency_key;
  retirement_hash = some command_hash;
  retired_by_actor_id = some actor_id;
  retirement_reason = some reason;
  retired_at = some now;
}

unfoldable pub retire_new :
    AgentRequestRecord → String → String → String → String → Exec RequestAgentResult
unfolding retired_request
retire_new r actor_id idempotency_key command_hash reason = do
  raise_if (not (admits_retirement r.status)) (Exception.agent_request "invalid_transition" 409)
  now ← effective_time none
  let retired = retired_request r actor_id idempotency_key command_hash reason now
  save_request retired
  transition_audit retired actor_id "agent.request_retired" r.status idempotency_key
      (field "reason" (text reason) end)
  commit_or_conflict (λ d.
      any
        (λ (x : AgentRequestRecord).
          not (x.id == r.id) && opt_str_eq x.retirement_idempotency_key (some idempotency_key))
        d.agent_requests)
  pure (record { request = retired; replayed = false })

unfoldable pub retire_row :
    AgentRequestRecord → String → String → String → String → Exec RequestAgentResult
unfolding retire_new
retire_row r actor_id idempotency_key command_hash reason =
    if opt_str_eq r.retirement_idempotency_key (some idempotency_key)
    then (do
      raise_if (conflicts r.retirement_hash command_hash r.retired_by_actor_id actor_id)
          Exception.agent_conflict
      pure (record { request = r; replayed = true }))
    else retire_new r actor_id idempotency_key command_hash reason

unfoldable pub retire_agent_request :
    TextLibrary → ℕ → String → String → String → Exec RequestAgentResult
unfolding retire_row
retire_agent_request lib request_id actor_id idempotency_key reason = do
  r ← get_agent_request request_id
  retire_row r actor_id idempotency_key (lib.digest (field "reason" (text reason) end)) reason
