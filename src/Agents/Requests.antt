-- ===== src/Agents/Requests.antt =====
-- `services.py`: a request for an agent, its decision, its application and its retirement.
use hermes_orchestrator.Prelude.{
  ℕ, Bool, true, false, ◌||◌, ◌&&◌, not, String, Option, none, some, [], ◌∷◌, ◌++◌, str_eq,
  str_append, ◌==◌, any, find, if◌then◌else◌,
}
use hermes_orchestrator.Models.Json.{Fields, end, field, text}
use hermes_orchestrator.Models.Requests.{
  RequestStatus, AgentRequestRecord, request_status_text, is_pending_request,
}
use hermes_orchestrator.Models.Settings.{TextLibrary}
use hermes_orchestrator.Store.Table
use hermes_orchestrator.Store.Exec.{
  Db, ok, Exec, Exception, pure, raise, raise_if, or_raise, gets, commit, effective_time, add_row,
  add_audit, save_request, AgentRequestRecord-Keyed, ◌>>=◌, ◌>>◌,
}
use hermes_orchestrator.Usage.Circuit.{opt_str_eq}

-- `RequestAgentResult`
pub record RequestAgentResult : Type 0 where
  pub request : AgentRequestRecord
  pub replayed : Bool

-- `session.rollback()`: the identifiers that were given away stay so.
unfoldable pub rollback : Exec Unit
rollback s = (ok tt, record s { current = record s.committed { next_id = s.current.next_id } })

unfoldable pub agent_event : String → String → ℕ → Fields → Exec Unit
agent_event actor_id event_type aggregate_id payload = add_audit (record {
  actor_id = actor_id;
  event_type = event_type;
  aggregate_type = "agent_request";
  aggregate_id = aggregate_id;
  payload = payload;
})

-- `_append_transition_audit`
unfoldable pub transition_audit :
    AgentRequestRecord → String → String → RequestStatus → String → Fields → Exec Unit
unfolding agent_event
transition_audit request actor_id event_type previous_status idempotency_key extra =
    agent_event actor_id event_type request.id (
      field "idempotency_key" (text idempotency_key) (
        field "previous_status" (text (request_status_text previous_status))
          (field "status" (text (request_status_text request.status)) extra)))

unfoldable pub new_request : String → String → String → Fields → ℕ → AgentRequestRecord
new_request actor_id idempotency_key request_hash payload id = record {
  id = id;
  idempotency_key = idempotency_key;
  request_hash = request_hash;
  requested_by_actor_id = actor_id;
  payload = payload;
  status = RequestStatus.pending;
  decision_idempotency_key = none;
  decision_hash = none;
  decided_by_actor_id = none;
  decision_reason = none;
  decided_at = none;
  application_idempotency_key = none;
  application_hash = none;
  applied_by_actor_id = none;
  applied_at = none;
  application_error_code = none;
  application_error_detail = none;
  retirement_idempotency_key = none;
  retirement_hash = none;
  retired_by_actor_id = none;
  retirement_reason = none;
  retired_at = none;
}

-- `get_by_idempotency_key`
unfoldable pub request_by_key : String → Db → Option AgentRequestRecord
request_by_key key d =
    find (λ (r : AgentRequestRecord). str_eq r.idempotency_key key) d.agent_requests

unfoldable pub insert_request : String → String → String → Fields → Exec RequestAgentResult
unfolding new_request agent_event
insert_request actor_id idempotency_key request_hash payload = do
  id ← add_row λ id d. record d {
    agent_requests =
        d.agent_requests ++ new_request actor_id idempotency_key request_hash payload id ∷ [];
  }
  agent_event actor_id "agent.requested" id (
      field "idempotency_key" (text idempotency_key) (field "request_hash" (text request_hash) end))
  commit
  pure (record {
    request = new_request actor_id idempotency_key request_hash payload id;
    replayed = false;
  })

unfoldable pub replay_request : String → String → AgentRequestRecord → Exec RequestAgentResult
replay_request actor_id request_hash existing = do
  raise_if
      (not (str_eq existing.request_hash request_hash)
        || not (str_eq existing.requested_by_actor_id actor_id))
      Exception.agent_conflict
  pure (record { request = existing; replayed = true })

unfoldable pub replay_or_request :
    String → String → String → Fields → Option AgentRequestRecord → Exec RequestAgentResult
unfolding insert_request replay_request
replay_or_request actor_id idempotency_key request_hash payload none =
    insert_request actor_id idempotency_key request_hash payload
replay_or_request actor_id idempotency_key request_hash payload (some existing) =
    replay_request actor_id request_hash existing

unfoldable pub request_agent : TextLibrary → String → String → Fields → Exec RequestAgentResult
unfolding replay_or_request request_by_key
request_agent lib actor_id idempotency_key payload = do
  existing ← gets (request_by_key idempotency_key)
  replay_or_request actor_id idempotency_key (lib.digest payload) payload existing

-- The row, or `not_found`; what follows gets a row that is in the table.
unfoldable pub get_agent_request : ℕ → Exec AgentRequestRecord
get_agent_request id = do
  row ← gets (λ d. Table.get id d.agent_requests)
  or_raise row (Exception.agent_request "not_found" 404)

-- The flush at `commit`: a unique key that another row holds rolls the session back.
unfoldable pub commit_or_conflict : (Db → Bool) → Exec Unit
commit_or_conflict taken = do
  conflict ← gets taken
  if conflict then (do rollback; raise Exception.agent_conflict) else commit

-- The same command under the same key, by the same actor.
abbrev pub conflicts : Option String → String → Option String → String → Bool
conflicts stored_hash command_hash stored_actor actor_id =
    not (opt_str_eq stored_hash (some command_hash))
    || not (opt_str_eq stored_actor (some actor_id))

pub data AgentDecision : Type 0 where
  approve reject : AgentDecision

abbrev pub decision_text : AgentDecision → String
decision_text approve = "approve"
decision_text reject = "reject"

abbrev pub is_approval : AgentDecision → Bool
is_approval approve = true
is_approval reject = false

unfoldable pub decided_request :
    AgentRequestRecord → String → String → String → AgentDecision → String → ℕ → AgentRequestRecord
decided_request r actor_id idempotency_key command_hash decision reason now = record r {
  status = if is_approval decision then RequestStatus.approved else RequestStatus.rejected;
  decision_idempotency_key = some idempotency_key;
  decision_hash = some command_hash;
  decided_by_actor_id = some actor_id;
  decision_reason = some reason;
  decided_at = some now;
}

unfoldable pub decide_new :
    AgentRequestRecord → String → String → String → AgentDecision → String → Exec RequestAgentResult
unfolding decided_request transition_audit commit_or_conflict
decide_new r actor_id idempotency_key command_hash decision reason = do
  raise_if (not (is_pending_request r.status)) (Exception.agent_request "invalid_transition" 409)
  raise_if (is_approval decision && str_eq actor_id r.requested_by_actor_id)
      (Exception.agent_request "self_escalation_denied" 403)
  now ← effective_time none
  let decided = decided_request r actor_id idempotency_key command_hash decision reason now
  save_request decided
  transition_audit decided actor_id
      (str_append "agent.request_" (request_status_text decided.status)) r.status idempotency_key
      (field "decision" (text (decision_text decision)) (field "reason" (text reason) end))
  commit_or_conflict (λ d.
      any
        (λ (x : AgentRequestRecord).
          not (x.id == r.id) && opt_str_eq x.decision_idempotency_key (some idempotency_key))
        d.agent_requests)
  pure (record { request = decided; replayed = false })

unfoldable pub decide_row :
    AgentRequestRecord → String → String → String → AgentDecision → String → Exec RequestAgentResult
unfolding decide_new
decide_row r actor_id idempotency_key command_hash decision reason =
    if opt_str_eq r.decision_idempotency_key (some idempotency_key)
    then (do
      raise_if (conflicts r.decision_hash command_hash r.decided_by_actor_id actor_id)
          Exception.agent_conflict
      pure (record { request = r; replayed = true }))
    else decide_new r actor_id idempotency_key command_hash decision reason

unfoldable pub decide_agent_request :
    TextLibrary → ℕ → String → String → AgentDecision → String → Exec RequestAgentResult
unfolding decide_row get_agent_request
decide_agent_request lib request_id actor_id idempotency_key decision reason = do
  r ← get_agent_request request_id
  decide_row r actor_id idempotency_key
      (lib.digest
        (field "decision" (text (decision_text decision)) (field "reason" (text reason) end)))
      decision reason
