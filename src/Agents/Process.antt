-- ===== src/Agents/Process.antt =====
-- `process_agent_request` of agent_policy.py: the policy decides a pending request and has what it
-- approved applied.
use hermes_orchestrator.Prelude.{
  ℕ, Bool, true, false, String, Option, none, some, or_else, str_append, if◌then◌else◌,
}
use hermes_orchestrator.Models.Requests.{RequestStatus, AgentRequestRecord, request_status_text}
use hermes_orchestrator.Models.Settings.{Settings, TextLibrary}
use hermes_orchestrator.Store.Table
use hermes_orchestrator.Store.Exec.{
  Result, ok, err, Exec, Exception, pure, gets, AgentRequestRecord-Keyed, ◌>>=◌, ◌>>◌,
}
use hermes_orchestrator.Usage.Circuit.{opt_str_eq}
use hermes_orchestrator.Agents.Requests.{RequestAgentResult, AgentDecision, decide_agent_request}
use hermes_orchestrator.Agents.Evaluation.{PolicyAction, AgentPolicyDecision}
use hermes_orchestrator.Agents.Policy.{evaluate_agent_request}
use hermes_orchestrator.Agents.Provisioning.{AgentProvisioner, AgentProvisioningResult}
use hermes_orchestrator.Agents.Provision.{provision_agent_request}

pub record AgentPolicyResult : Type 0 where
  pub request_id : ℕ
  pub action : String
  pub status : String
  pub code : String
  pub replayed : Bool
  pub profile_digest : Option String

abbrev outcome : ℕ → String → String → String → AgentPolicyResult
outcome id action status code = record {
  request_id = id;
  action = action;
  status = status;
  code = code;
  replayed = false;
  profile_digest = none;
}

-- `try: provision_agent_request(...) except ProvisioningError`
caught : ℕ → AgentPolicyDecision → Result AgentProvisioningResult → Result AgentPolicyResult
caught id decision (ok applied) = ok (record {
  request_id = id;
  action = "apply";
  status = "applied";
  code = "profile_applied";
  replayed = applied.replayed;
  profile_digest = decision.profile_digest;
})
caught id decision (err (Exception.provisioning code detail status)) =
    ok (outcome id "apply" "apply_failed" code)
caught id decision (err e) = err e

unfoldable pub catch_provisioning :
    ℕ → AgentPolicyDecision → Exec AgentProvisioningResult → Exec AgentPolicyResult
unfolding caught
catch_provisioning id decision m s = let (r, s') = m s in (caught id decision r, s')

unfoldable pub apply_request :
    TextLibrary
    → Settings
    → AgentProvisioner
    → AgentRequestRecord
    → AgentPolicyDecision
    → Exec AgentPolicyResult
unfolding catch_provisioning
apply_request lib settings provisioner r decision = catch_provisioning r.id decision (
    provision_agent_request lib provisioner r.id settings.agent_policy_actor_id
      (str_append "agent-policy-apply:" (lib.uuid_text r.id)))

unfoldable pub decide_request :
    TextLibrary → Settings → AgentRequestRecord → AgentDecision → String → Exec RequestAgentResult
decide_request lib settings r decision reason =
    decide_agent_request lib r.id settings.agent_policy_actor_id
      (str_append "agent-policy-decision:" (lib.uuid_text r.id)) decision reason

-- What the policy does with a request that it has approved before, by its decision now.
unfoldable pub approved_step :
    TextLibrary
    → Settings
    → AgentProvisioner
    → AgentRequestRecord
    → AgentPolicyDecision
    → PolicyAction
    → Exec AgentPolicyResult
unfolding apply_request
approved_step lib settings provisioner r decision PolicyAction.approve =
    apply_request lib settings provisioner r decision
approved_step lib settings provisioner r decision PolicyAction.reject =
    pure (outcome r.id "defer" "approved" decision.code)
approved_step lib settings provisioner r decision PolicyAction.defer =
    pure (outcome r.id "defer" "approved" decision.code)

unfoldable pub process_approved :
    TextLibrary
    → Settings
    → AgentProvisioner
    → AgentRequestRecord
    → AgentPolicyDecision
    → Exec AgentPolicyResult
unfolding approved_step
process_approved lib settings provisioner r decision =
    if opt_str_eq r.decided_by_actor_id (some settings.agent_policy_actor_id)
    then approved_step lib settings provisioner r decision decision.action
    else pure (outcome r.id "defer" "approved" "external_approval_owner")

-- What the policy does with a pending request, by its decision.
unfoldable pub pending_step :
    TextLibrary
    → Settings
    → AgentProvisioner
    → AgentRequestRecord
    → AgentPolicyDecision
    → PolicyAction
    → Exec AgentPolicyResult
unfolding apply_request decide_request
pending_step lib settings provisioner r decision PolicyAction.defer =
    pure (outcome r.id "defer" "pending" decision.code)
pending_step lib settings provisioner r decision PolicyAction.reject = do
  resolved ←
      decide_request lib settings r AgentDecision.reject
        (str_append decision.code (str_append ": " decision.reason))
  pure (outcome r.id "reject" (request_status_text resolved.request.status) decision.code)
pending_step lib settings provisioner r decision PolicyAction.approve = do
  decide_request lib settings r AgentDecision.approve (
      str_append decision.code (
        str_append ": " (
          str_append (or_else decision.profile_id "None")
            (str_append "; digest=" (or_else decision.profile_digest "None")))))
  apply_request lib settings provisioner r decision

unfoldable pub process_pending :
    TextLibrary
    → Settings
    → AgentProvisioner
    → AgentRequestRecord
    → AgentPolicyDecision
    → Exec AgentPolicyResult
unfolding pending_step
process_pending lib settings provisioner r decision =
    pending_step lib settings provisioner r decision decision.action

abbrev terminal : ℕ → String → AgentPolicyResult
terminal id status = record (outcome id "noop" status "terminal") { replayed = true }

unfoldable pub process_row :
    TextLibrary
    → Settings
    → AgentProvisioner
    → AgentRequestRecord
    → AgentPolicyDecision
    → RequestStatus
    → Exec AgentPolicyResult
unfolding process_approved process_pending
process_row lib settings provisioner r decision RequestStatus.applied =
    pure (terminal r.id "applied")
process_row lib settings provisioner r decision RequestStatus.rejected =
    pure (terminal r.id "rejected")
process_row lib settings provisioner r decision RequestStatus.retired =
    pure (terminal r.id "retired")
process_row lib settings provisioner r decision RequestStatus.approved =
    process_approved lib settings provisioner r decision
process_row lib settings provisioner r decision RequestStatus.pending =
    process_pending lib settings provisioner r decision
process_row lib settings provisioner r decision RequestStatus.apply_failed =
    pure (outcome r.id "defer" "apply_failed" "state_not_eligible")

unfoldable pub process_found :
    TextLibrary
    → Settings
    → AgentProvisioner
    → ℕ
    → Option AgentRequestRecord
    → Exec AgentPolicyResult
unfolding process_row
process_found lib settings provisioner request_id none =
    pure (outcome request_id "noop" "missing" "request_not_found")
process_found lib settings provisioner request_id (some r) = do
  decision ← gets (λ d. evaluate_agent_request lib settings d r)
  process_row lib settings provisioner r decision r.status

unfoldable pub process_agent_request :
    TextLibrary → Settings → AgentProvisioner → ℕ → Exec AgentPolicyResult
unfolding process_found
process_agent_request lib settings provisioner request_id = do
  row ← gets (λ d. Table.get request_id d.agent_requests)
  process_found lib settings provisioner request_id row
