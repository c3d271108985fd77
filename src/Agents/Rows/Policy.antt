-- ===== src/Agents/Rows/Policy.antt =====
-- The property of the requests through `process_agent_request`.
use hermes_orchestrator.Prelude.{ℕ, String, Option, none, some}
use hermes_orchestrator.Models.Requests.{AgentRequestRecord, RequestStatus}
use hermes_orchestrator.Models.Settings.{Settings, TextLibrary}
use hermes_orchestrator.Store.Exec.{Exec}
use hermes_orchestrator.Store.Keeps.{
  Keeps, Keeps-gets, Keeps-if, Keeps-bind, Keeps-pure, keeps_rules,
}
use hermes_orchestrator.Agents.Requests.{AgentDecision}
use hermes_orchestrator.Agents.Evaluation.{PolicyAction, AgentPolicyDecision}
use hermes_orchestrator.Agents.Provisioning.{AgentProvisioner, AgentProvisioningResult}
use hermes_orchestrator.Agents.Process.{
  catch_provisioning, apply_request, decide_request, approved_step, pending_step, process_approved,
  process_pending, process_row, process_found, process_agent_request,
}
use hermes_orchestrator.Agents.Rows.{Rows, Written, decide_agent_request-Rows}
use hermes_orchestrator.Agents.Rows.Provisioning.{provision-Rows}

module _ (B : ℕ → Type 0) (P : AgentRequestRecord → Type 0) (w : Written B P) where
  catch-Rows :
      (id : ℕ) (decision : AgentPolicyDecision) (m : Exec AgentProvisioningResult)
      → Keeps (Rows B P) m
      → Keeps (Rows B P) (catch_provisioning id decision m)
  unfolding catch_provisioning
  catch-Rows id decision m km = record { at = λ s h k. km.at s h k }

  apply_request-Rows :
      (lib : TextLibrary) (settings : Settings) (provisioner : AgentProvisioner)
      (r : AgentRequestRecord) (decision : AgentPolicyDecision)
      → Keeps (Rows B P) (apply_request lib settings provisioner r decision)
  unfolding apply_request
  apply_request-Rows lib settings provisioner r decision =
      catch-Rows r.id decision _ (provision-Rows B P w lib provisioner r.id _ _)

  decide_request-Rows :
      (lib : TextLibrary) (settings : Settings) (r : AgentRequestRecord) (decision : AgentDecision)
      (reason : String)
      → Keeps (Rows B P) (decide_request lib settings r decision reason)
  unfolding decide_request
  decide_request-Rows lib settings r decision reason =
      decide_agent_request-Rows B P w lib r.id _ _ decision reason

  approved_step-Rows :
      (lib : TextLibrary) (settings : Settings) (provisioner : AgentProvisioner)
      (r : AgentRequestRecord) (decision : AgentPolicyDecision) (action : PolicyAction)
      → Keeps (Rows B P) (approved_step lib settings provisioner r decision action)
  unfolding approved_step
  approved_step-Rows lib settings provisioner r decision PolicyAction.approve =
      apply_request-Rows lib settings provisioner r decision
  approved_step-Rows lib settings provisioner r decision PolicyAction.reject = Keeps-pure _
  approved_step-Rows lib settings provisioner r decision PolicyAction.defer = Keeps-pure _

  process_approved-Rows :
      (lib : TextLibrary) (settings : Settings) (provisioner : AgentProvisioner)
      (r : AgentRequestRecord) (decision : AgentPolicyDecision)
      → Keeps (Rows B P) (process_approved lib settings provisioner r decision)
  unfolding process_approved
  process_approved-Rows lib settings provisioner r decision =
      search (keeps_rules, Keeps-if, approved_step-Rows)

  pending_step-Rows :
      (lib : TextLibrary) (settings : Settings) (provisioner : AgentProvisioner)
      (r : AgentRequestRecord) (decision : AgentPolicyDecision) (action : PolicyAction)
      → Keeps (Rows B P) (pending_step lib settings provisioner r decision action)
  unfolding pending_step
  pending_step-Rows lib settings provisioner r decision PolicyAction.approve =
      search (keeps_rules, decide_request-Rows, apply_request-Rows)
  pending_step-Rows lib settings provisioner r decision PolicyAction.reject =
      search (keeps_rules, decide_request-Rows)
  pending_step-Rows lib settings provisioner r decision PolicyAction.defer = Keeps-pure _

  process_row-Rows :
      (lib : TextLibrary) (settings : Settings) (provisioner : AgentProvisioner)
      (r : AgentRequestRecord) (decision : AgentPolicyDecision) (status : RequestStatus)
      → Keeps (Rows B P) (process_row lib settings provisioner r decision status)
  unfolding process_row process_pending
  process_row-Rows lib settings provisioner r decision RequestStatus.pending =
      pending_step-Rows lib settings provisioner r decision decision.action
  process_row-Rows lib settings provisioner r decision RequestStatus.approved =
      process_approved-Rows lib settings provisioner r decision
  process_row-Rows lib settings provisioner r decision RequestStatus.rejected = Keeps-pure _
  process_row-Rows lib settings provisioner r decision RequestStatus.applied = Keeps-pure _
  process_row-Rows lib settings provisioner r decision RequestStatus.apply_failed = Keeps-pure _
  process_row-Rows lib settings provisioner r decision RequestStatus.retired = Keeps-pure _

  process_found-Rows :
      (lib : TextLibrary) (settings : Settings) (provisioner : AgentProvisioner) (id : ℕ)
      (o : Option AgentRequestRecord)
      → Keeps (Rows B P) (process_found lib settings provisioner id o)
  unfolding process_found
  process_found-Rows lib settings provisioner id none = Keeps-pure _
  process_found-Rows lib settings provisioner id (some r) =
      Keeps-bind _ _ (Keeps-gets _)
        (λ decision. process_row-Rows lib settings provisioner r decision r.status)

  pub process-Rows :
      (lib : TextLibrary) (settings : Settings) (provisioner : AgentProvisioner) (id : ℕ)
      → Keeps (Rows B P) (process_agent_request lib settings provisioner id)
  unfolding process_agent_request
  process-Rows lib settings provisioner id = search (keeps_rules, process_found-Rows)
