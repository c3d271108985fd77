-- ===== src/Agents/Removal.antt =====
-- `rollback_agent_request` of provisioning_services.py.
use hermes_orchestrator.Prelude.{
  ℕ, true, false, ◌||◌, not, String, none, map, str_eq, str_append, ◌==◌, or_else, if◌then◌else◌,
}
use hermes_orchestrator.Models.Json.{Fields, end, field, get, set, text, as_text}
use hermes_orchestrator.Models.Rows.{Agent, AgentInstance}
use hermes_orchestrator.Models.Requests.{AgentRequestRecord}
use hermes_orchestrator.Models.Settings.{TextLibrary}
use hermes_orchestrator.Store.Exec.{
  Exec, Exception, pure, raise, raise_if, or_raise, gets, modify, save_agent, ◌>>=◌, ◌>>◌,
}
use hermes_orchestrator.Agents.Requests.{get_agent_request, agent_event}
use hermes_orchestrator.Agents.Application.{retire_agent_request}
use hermes_orchestrator.Agents.Payload.{ProvisioningPayload, payload_of}
use hermes_orchestrator.Agents.Provisioning.{
  ProvisionerResult, Answer, done, refused, AgentProvisioner, AgentProvisioningResult,
  agent_by_slug,
}
use hermes_orchestrator.Agents.Provision.{is_applied}

-- `policy_set.pop(key, "")`, the rest
without : String → Fields → Fields
without key end = end
without key (field k v d) = let rest = without key d in if str_eq k key then d else field k v rest

abbrev text_of : String → Fields → String → String
text_of key d default = or_else (as_text (get key d)) default

unfoldable pub disabled_agent : Agent → String → ProvisionerResult → Agent
unfolding without
disabled_agent agent idempotency_key result = record agent {
  desired_state = "disabled";
  policy_set =
      set "revoked_runtime_auth_token_sha256"
        (text (text_of "runtime_auth_token_sha256" agent.policy_set ""))
        (set "rollback_config_digest" (text result.config_digest) (
          set "rollback_idempotency_key" (text idempotency_key)
            (without "runtime_auth_token_sha256" agent.policy_set)));
}

stopped : ℕ → AgentInstance → AgentInstance
stopped agent_id i =
    if i.agent_id == agent_id
    then record i { health = "stopped"; reconciliation_state = "rolled_back" }
    else i

unfoldable pub stop_instances : ℕ → Exec Unit
unfolding stopped
stop_instances agent_id =
    modify λ d. record d { agent_instances = map (stopped agent_id) d.agent_instances }

-- The worker was stopped: its agent is disabled and the request is retired.
unfoldable pub disable_agent :
    TextLibrary
    → AgentRequestRecord
    → Agent
    → String
    → String
    → String
    → Answer
    → Exec AgentProvisioningResult
unfolding disabled_agent stop_instances
disable_agent lib r agent actor_id idempotency_key reason (refused code detail status) =
    raise (Exception.provisioning code detail status)
disable_agent lib r agent actor_id idempotency_key reason (done result) = do
  save_agent (disabled_agent agent idempotency_key result)
  stop_instances agent.id
  agent_event actor_id "agent.provisioning_rolled_back" r.id (
      field "service_name" (text result.service_name) (
        field "config_digest" (text result.config_digest)
          (field "idempotency_key" (text idempotency_key) end)))
  retire_agent_request lib r.id actor_id idempotency_key reason
  pure (record { request_id = r.id; provisioner = result; replayed = false })

-- The result of an earlier rollback of the agent.
unfoldable pub rolled_back_before : AgentRequestRecord → Agent → String → AgentProvisioningResult
rolled_back_before r agent slug = record {
  request_id = r.id;
  provisioner = record {
    status = "rolled_back";
    service_name = str_append "worker-" slug;
    config_digest = text_of "rollback_config_digest" agent.policy_set "unknown";
    health = "stopped";
    credential_sha256 = none;
  };
  replayed = true;
}

unfoldable pub rollback_row :
    TextLibrary
    → AgentProvisioner
    → AgentRequestRecord
    → ProvisioningPayload
    → String
    → String
    → String
    → Agent
    → Exec AgentProvisioningResult
unfolding disable_agent rolled_back_before
rollback_row lib provisioner r payload actor_id idempotency_key reason agent =
    let previous_key = text_of "rollback_idempotency_key" agent.policy_set "" in
    if str_eq previous_key ""
    then (do
      raise_if (not (is_applied r.status) || not (str_eq agent.desired_state "active"))
          (Exception.agent_request "invalid_transition" 409)
      disable_agent lib r agent actor_id idempotency_key reason (provisioner.rollback payload))
    else (do
      raise_if (not (str_eq previous_key idempotency_key)) Exception.agent_conflict
      pure (rolled_back_before r agent payload.slug))

unfoldable pub rollback_agent_request :
    TextLibrary → AgentProvisioner → ℕ → String → String → String → Exec AgentProvisioningResult
unfolding rollback_row
rollback_agent_request lib provisioner request_id actor_id idempotency_key reason = do
  r ← get_agent_request request_id
  payload ← payload_of lib r.id r.payload
  found ← gets (agent_by_slug payload.slug)
  agent ← or_raise found (Exception.agent_request "agent_not_found" 404)
  rollback_row lib provisioner r payload actor_id idempotency_key reason agent
