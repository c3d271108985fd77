-- ===== src/Agents/Rows/Provisioning.antt =====
-- The property of the requests through the provisioning and the policy.
use hermes_orchestrator.Prelude.{ℕ, String, Option, none, some, List}
use hermes_orchestrator.Models.Json.{
  Fields, Json, Items, nil, cons, text, array, null, boolean, integer, decimal, uuid, instant,
  object,
}
use hermes_orchestrator.Models.Rows.{Agent, AgentInstance}
use hermes_orchestrator.Models.Requests.{AgentRequestRecord}
use hermes_orchestrator.Models.Settings.{TextLibrary}
use hermes_orchestrator.Store.Exec.{save_agent, save_instance}
use hermes_orchestrator.Store.Keeps.{
  Keeps, Keeps-gets, Keeps-or_raise-bind, Keeps-modify, Keeps-add_row, Keeps-if, Keeps-when,
  Keeps-bind, Keeps-pure, Keeps-raise, keeps_rules,
}
use hermes_orchestrator.Agents.Payload.{ProvisioningPayload, payload_of}
use hermes_orchestrator.Agents.Edges.{
  add_edge, ensure_edge, connect, connect_all, connect_value, materialize_policy,
}
use hermes_orchestrator.Agents.Provisioning.{
  ProvisionerResult, Answer, done, refused, AgentProvisioner, refresh_agent, agent_for,
}
use hermes_orchestrator.Agents.Provision.{
  place_instance, place_agent, record_failure, apply_result, provision_new, provision_again,
  provision_row, provision_agent_request,
}
use hermes_orchestrator.Agents.Removal.{
  stop_instances, disable_agent, rollback_row, rollback_agent_request,
}
use hermes_orchestrator.Agents.Rows.{
  Rows, Written, agent_event-Rows, get_agent_request-bind, record_application-Rows,
  retire_agent_request-Rows,
}

module _ (B : ℕ → Type 0) (P : AgentRequestRecord → Type 0) (w : Written B P) where
  save_agent-Rows : (a : Agent) → Keeps (Rows B P) (save_agent a)
  save_agent-Rows a = Keeps-modify _ (λ d h. h)

  save_instance-Rows : (i : AgentInstance) → Keeps (Rows B P) (save_instance i)
  save_instance-Rows i = Keeps-modify _ (λ d h. h)

  stop_instances-Rows : (id : ℕ) → Keeps (Rows B P) (stop_instances id)
  unfolding stop_instances
  stop_instances-Rows id = Keeps-modify _ (λ d h. h)

  payload_of-Rows :
      (lib : TextLibrary) (id : ℕ) (raw : Fields) → Keeps (Rows B P) (payload_of lib id raw)
  unfolding payload_of
  payload_of-Rows lib id raw = Keeps-or_raise-bind _ _ _ (λ slug e1.
      Keeps-or_raise-bind _ _ _ (λ role e2. Keeps-or_raise-bind _ _ _ (λ description e3.
        Keeps-or_raise-bind _ _ _ (λ policy_set e4. Keeps-or_raise-bind _ _ _ (λ capabilities e5.
          Keeps-or_raise-bind _ _ _ (λ secret_refs e6. search keeps_rules depth 14))))))

  add_edge-Rows :
      (source target : ℕ) (task_classes scopes : List String) (actor : String)
      → Keeps (Rows B P) (add_edge source target task_classes scopes actor)
  unfolding add_edge
  add_edge-Rows source target task_classes scopes actor =
      Keeps-bind _ _ (Keeps-add_row _ (λ d h. (w.more d.next_id h.0, h.1))) (λ id. Keeps-pure tt)

  ensure_edge-Rows :
      (source target : ℕ) (task_classes scopes : List String) (actor : String)
      → Keeps (Rows B P) (ensure_edge source target task_classes scopes actor)
  unfolding ensure_edge
  ensure_edge-Rows source target task_classes scopes actor =
      search (keeps_rules, Keeps-when, add_edge-Rows)

  connect-Rows :
      (a : Agent) (actor : String) (o : Option Agent) → Keeps (Rows B P) (connect a actor o)
  unfolding connect
  connect-Rows a actor none = Keeps-pure tt
  connect-Rows a actor (some target) = search (keeps_rules, Keeps-when, ensure_edge-Rows)

  connect_all-Rows :
      (a : Agent) (actor : String) (items : Items) → Keeps (Rows B P) (connect_all a actor items)
  unfolding connect_all
  connect_all-Rows a actor nil = Keeps-pure tt
  connect_all-Rows a actor (cons x items) =
      Keeps-bind _ _ (Keeps-gets _) (λ target.
        Keeps-bind _ _ (connect-Rows a actor target) (λ u. connect_all-Rows a actor items))

  connect_value-Rows :
      (a : Agent) (actor : String) (o : Option Json) → Keeps (Rows B P) (connect_value a actor o)
  unfolding connect_value
  connect_value-Rows a actor (some (array items)) = connect_all-Rows a actor items
  connect_value-Rows a actor none = Keeps-pure tt
  connect_value-Rows a actor (some null) = Keeps-pure tt
  connect_value-Rows a actor (some (boolean b)) = Keeps-pure tt
  connect_value-Rows a actor (some (integer b)) = Keeps-pure tt
  connect_value-Rows a actor (some (decimal b)) = Keeps-pure tt
  connect_value-Rows a actor (some (text b)) = Keeps-pure tt
  connect_value-Rows a actor (some (uuid b)) = Keeps-pure tt
  connect_value-Rows a actor (some (instant b)) = Keeps-pure tt
  connect_value-Rows a actor (some (object b)) = Keeps-pure tt

  materialize-Rows : (a : Agent) (actor : String) → Keeps (Rows B P) (materialize_policy a actor)
  unfolding materialize_policy
  materialize-Rows a actor = connect_value-Rows a actor _

  ruleset steps = (
    keeps_rules, Keeps-if, save_agent-Rows, save_instance-Rows, stop_instances-Rows,
    payload_of-Rows, materialize-Rows,
  )

  refresh_agent-Rows :
      (r : AgentRequestRecord) (slug actor : String) (result : ProvisionerResult)
      → Keeps (Rows B P) (refresh_agent r slug actor result)
  unfolding refresh_agent
  refresh_agent-Rows r slug actor result = search steps depth 20

  agent_for-Rows :
      (payload : ProvisioningPayload) (owner : String) (o : Option Agent)
      → Keeps (Rows B P) (agent_for payload owner o)
  unfolding agent_for
  agent_for-Rows payload owner (some a) = Keeps-pure a
  agent_for-Rows payload owner none =
      Keeps-bind _ _ (Keeps-add_row _ (λ d h. (w.more d.next_id h.0, h.1))) (λ id. Keeps-pure _)

  place_instance-Rows :
      (id : ℕ) (result : ProvisionerResult) (now : ℕ) (o : Option AgentInstance)
      → Keeps (Rows B P) (place_instance id result now o)
  unfolding place_instance
  place_instance-Rows id result now (some i) = save_instance-Rows _
  place_instance-Rows id result now none =
      Keeps-bind _ _ (Keeps-add_row _ (λ d h. (w.more d.next_id h.0, h.1))) (λ id. Keeps-pure tt)

  place_agent-Rows :
      (r : AgentRequestRecord) (payload : ProvisioningPayload) (slug actor : String)
      (result : ProvisionerResult) (credential : String)
      → Keeps (Rows B P) (place_agent r payload slug actor result credential)
  unfolding place_agent
  place_agent-Rows r payload slug actor result credential =
      search (steps, agent_for-Rows, place_instance-Rows, agent_event-Rows B P w) depth 24

  record_failure-Rows :
      (lib : TextLibrary) (r : AgentRequestRecord) (actor key code detail : String) (status : ℕ)
      → Keeps (Rows B P) (record_failure lib r actor key code detail status)
  unfolding record_failure
  record_failure-Rows lib r actor key code detail status =
      search (keeps_rules, record_application-Rows B P w)

  provision_new-Rows :
      (lib : TextLibrary) (r : AgentRequestRecord) (payload : ProvisioningPayload)
      (slug actor key : String) (answer : Answer)
      → Keeps (Rows B P) (provision_new lib r payload slug actor key answer)
  unfolding provision_new apply_result
  provision_new-Rows lib r payload slug actor key (refused code detail status) =
      record_failure-Rows lib r actor key code detail status
  provision_new-Rows lib r payload slug actor key (done result) =
      search (
        keeps_rules,
        Keeps-if,
        record_failure-Rows,
        record_application-Rows B P w,
        place_agent-Rows,
      )

  provision_again-Rows :
      (r : AgentRequestRecord) (slug actor : String) (answer : Answer)
      → Keeps (Rows B P) (provision_again r slug actor answer)
  unfolding provision_again
  provision_again-Rows r slug actor (refused code detail status) = Keeps-raise _
  provision_again-Rows r slug actor (done result) = refresh_agent-Rows r slug actor result

  pub provision-Rows :
      (lib : TextLibrary) (provisioner : AgentProvisioner) (id : ℕ) (actor key : String)
      → Keeps (Rows B P) (provision_agent_request lib provisioner id actor key)
  unfolding provision_agent_request provision_row
  provision-Rows lib provisioner id actor key = get_agent_request-bind B P w id _ (λ r p.
      search (keeps_rules, Keeps-if, payload_of-Rows, provision_new-Rows, provision_again-Rows))

  disable_agent-Rows :
      (lib : TextLibrary) (r : AgentRequestRecord) (a : Agent) (actor key reason : String)
      (answer : Answer)
      → Keeps (Rows B P) (disable_agent lib r a actor key reason answer)
  unfolding disable_agent
  disable_agent-Rows lib r a actor key reason (refused code detail status) = Keeps-raise _
  disable_agent-Rows lib r a actor key reason (done result) =
      search (steps, agent_event-Rows B P w, retire_agent_request-Rows B P w) depth 14

  pub rollback-Rows :
      (lib : TextLibrary) (provisioner : AgentProvisioner) (id : ℕ) (actor key reason : String)
      → Keeps (Rows B P) (rollback_agent_request lib provisioner id actor key reason)
  unfolding rollback_agent_request rollback_row
  rollback-Rows lib provisioner id actor key reason =
      get_agent_request-bind B P w id _
        (λ r p. search (keeps_rules, Keeps-if, payload_of-Rows, disable_agent-Rows) depth 14)
