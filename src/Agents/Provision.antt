-- ===== src/Agents/Provision.antt =====
-- `provision_agent_request` of provisioning_services.py and `process_agent_request` of
-- agent_policy.py.
use hermes_orchestrator.Prelude.{
  ℕ, Bool, true, false, ◌&&◌, not, String, Option, none, some, [], ◌∷◌, ◌++◌, str_eq, str_append,
  or_else, if◌then◌else◌,
}
use hermes_orchestrator.Models.Json.{end, field, get, text, as_text}
use hermes_orchestrator.Models.Rows.{AgentInstance}
use hermes_orchestrator.Models.Requests.{RequestStatus, AgentRequestRecord, admits_application}
use hermes_orchestrator.Models.Settings.{TextLibrary}
use hermes_orchestrator.Store.Exec.{
  Exec, Exception, pure, raise, raise_if, gets, commit, effective_time, add_row, save_agent,
  save_instance, AgentRequestRecord-Keyed, ◌>>=◌, ◌>>◌,
}
use hermes_orchestrator.Usage.Circuit.{opt_str_eq}
use hermes_orchestrator.Agents.Requests.{get_agent_request, agent_event}
use hermes_orchestrator.Agents.Application.{applied, failed, record_agent_request_application}
use hermes_orchestrator.Agents.Payload.{ProvisioningPayload, payload_of}
use hermes_orchestrator.Agents.Edges.{materialize_policy}
use hermes_orchestrator.Agents.Provisioning.{
  ProvisionerResult, Answer, done, refused, AgentProvisioner, AgentProvisioningResult,
  agent_by_slug, last_instance, refresh_agent, agent_for, provisioned_agent,
}

provisioned_instance : ProvisionerResult → ℕ → AgentInstance → AgentInstance
provisioned_instance result now i = record i {
  container_ref = some (str_append (str_append "hermes-tradix-f11-" result.service_name) "-1");
  hermes_version = some "0.18.2";
  internal_endpoint = some (str_append (str_append "http://" result.service_name) ":8642");
  config_revision = some result.config_digest;
  health = result.health;
  last_heartbeat_at = some now;
  reconciliation_state = "in_sync";
}

blank_instance : ℕ → ℕ → AgentInstance
blank_instance agent_id id = record {
  id = id;
  agent_id = agent_id;
  container_ref = none;
  hermes_version = none;
  internal_endpoint = none;
  config_revision = none;
  health = "unknown";
  last_heartbeat_at = none;
  reconciliation_state = "pending";
}

-- The agent's last instance, or a new one.
unfoldable pub place_instance : ℕ → ProvisionerResult → ℕ → Option AgentInstance → Exec Unit
unfolding provisioned_instance blank_instance
place_instance agent_id result now (some i) = save_instance (provisioned_instance result now i)
place_instance agent_id result now none = do
  add_row λ id d. record d {
    agent_instances =
        d.agent_instances ++ provisioned_instance result now (blank_instance agent_id id) ∷ [];
  }
  pure tt

-- The agent and its instance after the application was recorded.
unfoldable pub place_agent :
    AgentRequestRecord
    → ProvisioningPayload
    → String
    → String
    → ProvisionerResult
    → String
    → Exec AgentProvisioningResult
unfolding place_instance
place_agent r payload slug actor_id result credential = do
  now ← effective_time none
  found ← gets (agent_by_slug payload.slug)
  agent ← agent_for payload r.requested_by_actor_id found
  let placed = provisioned_agent r payload slug credential agent
  save_agent placed
  instances ← gets (last_instance placed.id)
  place_instance placed.id result now instances
  materialize_policy placed actor_id
  agent_event actor_id "agent.provisioned" r.id (
      field "service_name" (text result.service_name) (
        field "config_digest" (text result.config_digest)
          (field "status" (text result.status) end)))
  commit
  pure (record { request_id = r.id; provisioner = result; replayed = false })

-- A failure is recorded, and raised again.
unfoldable pub record_failure :
    TextLibrary
    → AgentRequestRecord
    → String
    → String
    → String
    → String
    → ℕ
    → Exec AgentProvisioningResult
record_failure lib r actor_id idempotency_key code detail status = do
  record_agent_request_application lib r.id actor_id idempotency_key
      (failed (some code) (some detail))
  raise (Exception.provisioning code detail status)

unfoldable pub apply_result :
    TextLibrary
    → AgentRequestRecord
    → ProvisioningPayload
    → String
    → String
    → String
    → ProvisionerResult
    → Exec AgentProvisioningResult
unfolding place_agent record_failure
apply_result lib r payload slug actor_id idempotency_key result =
    let credential = or_else result.credential_sha256 "" in
    if str_eq credential ""
    then record_failure lib r actor_id idempotency_key "runtime_credential_missing"
        "El provisioner no devolvió la huella de la credencial dinámica" 503
    else (do
      record_agent_request_application lib r.id actor_id idempotency_key applied
      place_agent r payload slug actor_id result credential)

-- A request that was approved, or whose application failed.
unfoldable pub provision_new :
    TextLibrary
    → AgentRequestRecord
    → ProvisioningPayload
    → String
    → String
    → String
    → Answer
    → Exec AgentProvisioningResult
unfolding apply_result record_failure
provision_new lib r payload slug actor_id idempotency_key (refused code detail status) =
    record_failure lib r actor_id idempotency_key code detail status
provision_new lib r payload slug actor_id idempotency_key (done result) =
    apply_result lib r payload slug actor_id idempotency_key result

-- What the provisioner answers to a replay.
unfoldable pub provision_again :
    AgentRequestRecord → String → String → Answer → Exec AgentProvisioningResult
provision_again r slug actor_id (refused code detail status) =
    raise (Exception.provisioning code detail status)
provision_again r slug actor_id (done result) = refresh_agent r slug actor_id result

abbrev pub is_applied : RequestStatus → Bool
is_applied RequestStatus.pending = false
is_applied RequestStatus.approved = false
is_applied RequestStatus.rejected = false
is_applied RequestStatus.applied = true
is_applied RequestStatus.apply_failed = false
is_applied RequestStatus.retired = false

unfoldable pub provision_row :
    TextLibrary
    → AgentProvisioner
    → String
    → String
    → AgentRequestRecord
    → Exec AgentProvisioningResult
unfolding provision_new provision_again
provision_row lib provisioner actor_id idempotency_key r =
    let slug = or_else (as_text (get "slug" r.payload)) "" in
    if opt_str_eq r.application_idempotency_key (some idempotency_key) && is_applied r.status
    then (do
      payload ← payload_of lib r.id r.payload
      provision_again r slug actor_id (provisioner.apply payload))
    else (do
      raise_if (not (admits_application r.status))
          (Exception.agent_request "invalid_transition" 409)
      payload ← payload_of lib r.id r.payload
      provision_new lib r payload slug actor_id idempotency_key (provisioner.apply payload))

unfoldable pub provision_agent_request :
    TextLibrary → AgentProvisioner → ℕ → String → String → Exec AgentProvisioningResult
unfolding provision_row
provision_agent_request lib provisioner request_id actor_id idempotency_key = do
  r ← get_agent_request request_id
  provision_row lib provisioner actor_id idempotency_key r
