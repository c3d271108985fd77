-- ===== src/Agents/Tests.antt =====
-- The theorems on the requests for agents at concrete states.
use hermes_orchestrator.Prelude.{◌≡◌, refl, arith, none, some, [], ◌∷◌, All, strip_prefix}
use hermes_orchestrator.Models.Json.{Fields, end, field, text, array, texts, object, get, as_text}
use hermes_orchestrator.Models.Requests.{RequestStatus, AgentRequestRecord}
use hermes_orchestrator.Store.Exec.{Db, err, Exception, request, ◌>>=◌}
use hermes_orchestrator.Store.Table
use hermes_orchestrator.Fixtures.{settings, library, db_with, session_of}
use hermes_orchestrator.Agents.Requests.{AgentDecision}
use hermes_orchestrator.Agents.Payload.{ProvisioningPayload, payload_of, is_slug, escapes}
use hermes_orchestrator.Agents.Profiles.{role_execution_profile}
use hermes_orchestrator.Agents.Evaluation.{
  managed_agents, sequence_within, sequence, text_items, is_subset, object_or_empty, keys_subset,
  dangerous_fields, dangerous, dangerous_text, absent_or_text, absent_or_only, absent_or_in,
  budget_excess, entry_within,
}
use hermes_orchestrator.Agents.Provisioning.{ProvisionerResult, done, AgentProvisioner}
use hermes_orchestrator.Agents.Provision.{provision_agent_request}
use hermes_orchestrator.Agents.Policy.{evaluate_agent_request}
use hermes_orchestrator.Agents.Policy.Containment.{Contained, evaluate-Contained}
use hermes_orchestrator.Agents.Duties.{Separated}
use hermes_orchestrator.Agents.Service.{
  AgentCall, perform, decide, start, perform_next, Performs-Separated, Performs-final,
}
use hermes_orchestrator.Agents.Retry.{provision_retry}

-- A steward of datasets within its profile.
abbrev steward : Fields
steward = field "slug" (text "data-steward-one") (
    field "role" (text "data_steward") (
      field "description" (text "reads the datasets") (
        field "policy_set" (object (field "name" (text "data-minimal") end)) (
          field "capabilities" (array (texts ("dataset_read" ∷ [])))
            (field "secret_refs" (array (texts [])) end)))))

abbrev request_in : RequestStatus → AgentRequestRecord
request_in status = record {
  id = 60;
  idempotency_key = "request-key";
  request_hash = "digest";
  requested_by_actor_id = "lea";
  payload = steward;
  status = status;
  decision_idempotency_key = none;
  decision_hash = none;
  decided_by_actor_id = none;
  decision_reason = none;
  decided_at = none;
  application_idempotency_key = none;
  application_hash = none;
  applied_by_actor_id = none;
  applied_at = none;
  application_error_code = none;
  application_error_detail = none;
  retirement_idempotency_key = none;
  retirement_hash = none;
  retired_by_actor_id = none;
  retirement_reason = none;
  retired_at = none;
}

abbrev request_db : AgentRequestRecord → Db
request_db r = record (db_with [] [] []) { agent_requests = r ∷ [] }

evaluate-Contained_example :
    Contained library settings
      (request_db (request_in RequestStatus.pending))
      (request_in RequestStatus.pending)
unfolding evaluate_agent_request managed_agents sequence_within sequence text_items is_subset
    object_or_empty keys_subset dangerous_fields dangerous dangerous_text absent_or_text
    absent_or_only absent_or_in budget_excess entry_within role_execution_profile strip_prefix get
    as_text
evaluate-Contained_example =
    evaluate-Contained library settings (request_db (request_in RequestStatus.pending))
      (request_in RequestStatus.pending) refl

abbrev failed_request : AgentRequestRecord
failed_request = record (request_in RequestStatus.apply_failed) {
  decided_by_actor_id = some "ana";
  application_idempotency_key = some "apply-key";
  application_hash = some "failure";
}

abbrev steward_payload : ProvisioningPayload
steward_payload = record {
  request_id = 60;
  slug = "data-steward-one";
  role = "data_steward";
  description = "reads the datasets";
  policy_set = field "name" (text "data-minimal") end;
  capabilities = "dataset_read" ∷ [];
  secret_refs = [];
}

abbrev started : ProvisionerResult
started = record {
  status = "applied";
  service_name = "agent-data-steward-one";
  config_digest = "config";
  health = "healthy";
  credential_sha256 = some "sha";
}

abbrev provisioner : AgentProvisioner
provisioner = record { apply = λ p. done started; rollback = λ p. done started }

provision_retry_example :
    provision_agent_request library provisioner 60 "ana" "apply-key"
      (session_of (request_db failed_request))
    ≡ (err Exception.agent_conflict, session_of (request_db failed_request))
unfolding payload_of Table.get ◌>>=◌ is_slug escapes sequence text_items object_or_empty keys_subset
    absent_or_text absent_or_only get as_text
provision_retry_example =
    provision_retry library 60 "ana" "apply-key" (session_of (request_db failed_request))
      failed_request provisioner steward_payload started "sha" refl refl refl (λ e. cc) refl refl
      refl (λ e. cc)

abbrev approval : AgentCall
approval = decide 60 "ana" "decision-key" AgentDecision.approve "a steward is missing"

Performs-Separated_example :
    All Separated
      (request
        (perform library settings approval)
        200
        (request_db (request_in RequestStatus.pending))).1.agent_requests
Performs-Separated_example =
    Performs-Separated library settings (request_db (request_in RequestStatus.pending)) _
      ((λ on. cc), tt)
      (perform_next (request_db (request_in RequestStatus.pending)) approval 200 start)

Performs-final_example :
    All
      (λ (r : AgentRequestRecord). r.id ≡ 60 → r.status ≡ RequestStatus.rejected)
      (request
        (perform library settings approval)
        200
        (request_db (request_in RequestStatus.rejected))).1.agent_requests
Performs-final_example =
    Performs-final library settings (request_db (request_in RequestStatus.rejected)) _ 60
      RequestStatus.rejected refl (omega arith) ((λ e. refl), tt)
      (perform_next (request_db (request_in RequestStatus.rejected)) approval 200 start)
