-- ===== src/Agents/Rows.antt =====
-- A property of every request and of the next identifier, through the operations of services.py.
pub mod Provisioning
pub mod Policy
use hermes_orchestrator.Prelude.{
  ℕ, suc, ◌≡◌, refl, Bool, true, false, ◌&&◌, not, String, Option, none, some, List, [], ◌∷◌, ◌++◌,
  str_eq, All, All-append, arith, if◌then◌else◌,
}
use hermes_orchestrator.Models.Json.{Fields}
use hermes_orchestrator.Models.Rows.{AuditEvent}
use hermes_orchestrator.Models.Requests.{
  AgentRequestRecord, is_pending_request, admits_application, admits_retirement, RequestStatus,
}
use hermes_orchestrator.Models.Settings.{TextLibrary}
use hermes_orchestrator.Store.Table
use hermes_orchestrator.Store.Exec.{
  Db, Exec, Exception, or_raise, gets, add_audit, save_request, AgentRequestRecord-Keyed, ◌>>=◌,
}
use hermes_orchestrator.Store.Keeps.{
  Keeps, Keeps-modify, Keeps-add_row, Keeps-if, Keeps-or_raise-bind, Keeps-bind, Keeps-pure,
  Keeps-raise, Keeps-raise_if-bind, keeps_rules,
}
use hermes_orchestrator.Agents.Requests.{
  RequestAgentResult, AgentDecision, is_approval, rollback, agent_event, transition_audit,
  new_request, insert_request, replay_request, replay_or_request, request_agent, get_agent_request,
  commit_or_conflict, decided_request, decide_new, decide_row, decide_agent_request,
}
use hermes_orchestrator.Agents.Application.{
  Outcome, applied_request, apply_new, apply_row, record_agent_request_application, retired_request,
  retire_new, retire_row, retire_agent_request,
}

module _ (B : ℕ → Type 0) (P : AgentRequestRecord → Type 0) where
  abbrev pub Rows : Db → Type 0
  Rows d = B d.next_id × All P d.agent_requests

  -- What the property has to say of the rows that the operations write.
  pub record Written : Type 0 where
    pub more : (n : ℕ) → B n → B (suc n)
    pub requested :
        (n : ℕ) (actor_id key request_hash : String) (payload : Fields)
        → B n
        → P (new_request actor_id key request_hash payload n)
    pub decided :
        (r : AgentRequestRecord) (actor_id key command_hash : String) (decision : AgentDecision)
        (reason : String) (now : ℕ)
        → is_pending_request r.status ≡ true
        → is_approval decision && str_eq actor_id r.requested_by_actor_id ≡ false
        → P r
        → P (decided_request r actor_id key command_hash decision reason now)
    pub applied :
        (r : AgentRequestRecord) (actor_id key command_hash : String) (outcome : Outcome) (now : ℕ)
        → admits_application r.status ≡ true
        → P r
        → P (applied_request r actor_id key command_hash outcome now)
    pub retired :
        (r : AgentRequestRecord) (actor_id key command_hash reason : String) (now : ℕ)
        → admits_retirement r.status ≡ true
        → P r
        → P (retired_request r actor_id key command_hash reason now)

  module _ (w : Written) where
    add_audit-Rows : (e : AuditEvent) → Keeps Rows (add_audit e)
    add_audit-Rows e = Keeps-modify _ (λ d h. h)

    pub agent_event-Rows :
        (actor_id event_type : String) (id : ℕ) (payload : Fields)
        → Keeps Rows (agent_event actor_id event_type id payload)
    unfolding agent_event
    agent_event-Rows actor_id event_type id payload = add_audit-Rows _

    transition_audit-Rows :
        (r : AgentRequestRecord) (actor_id event_type : String) (previous : RequestStatus)
        (key : String) (extra : Fields)
        → Keeps Rows (transition_audit r actor_id event_type previous key extra)
    unfolding transition_audit
    transition_audit-Rows r actor_id event_type previous key extra = agent_event-Rows _ _ _ _

    rollback-Rows : Keeps Rows rollback
    unfolding rollback
    rollback-Rows = record { at = λ s h k. ((h.0, k.1), k) }

    pub commit_or_conflict-Rows : (taken : Db → Bool) → Keeps Rows (commit_or_conflict taken)
    unfolding commit_or_conflict
    commit_or_conflict-Rows taken = search (keeps_rules, Keeps-if, rollback-Rows)

    save_request-Rows : (r : AgentRequestRecord) → P r → Keeps Rows (save_request r)
    save_request-Rows r p = Keeps-modify _ (λ d h. (h.0, Table.All-put P r d.agent_requests p h.1))

    -- The row that was found has the property.
    pub get_agent_request-bind :
        {A : Type 0} (id : ℕ) (f : AgentRequestRecord → Exec A)
        → ((r : AgentRequestRecord) → P r → Keeps Rows (f r))
        → Keeps Rows (get_agent_request id >>= f)
    unfolding get_agent_request ◌>>=◌
    get_agent_request-bind id f kf = record {
      at = λ s h k.
          (Keeps-or_raise-bind (Table.get id s.current.agent_requests)
              (Exception.agent_request "not_found" 404) f
              (λ r found. kf r (Table.All-get P id s.current.agent_requests r h.1 found))).at
            s h k;
    }

    insert_request-Rows :
        (actor_id key request_hash : String) (payload : Fields)
        → Keeps Rows (insert_request actor_id key request_hash payload)
    unfolding insert_request
    insert_request-Rows actor_id key request_hash payload =
        Keeps-bind _ _
          (Keeps-add_row _ (λ d h. (
            w.more d.next_id h.0,
            All-append P d.agent_requests (_ ∷ []) h.1
                (w.requested d.next_id actor_id key request_hash payload h.0, tt),
          )))
          (λ id. search (keeps_rules, agent_event-Rows))

    replay_or_request-Rows :
        (actor_id key request_hash : String) (payload : Fields) (o : Option AgentRequestRecord)
        → Keeps Rows (replay_or_request actor_id key request_hash payload o)
    unfolding replay_or_request replay_request
    replay_or_request-Rows actor_id key request_hash payload none =
        insert_request-Rows actor_id key request_hash payload
    replay_or_request-Rows actor_id key request_hash payload (some r) = search keeps_rules

    pub request_agent-Rows :
        (lib : TextLibrary) (actor_id key : String) (payload : Fields)
        → Keeps Rows (request_agent lib actor_id key payload)
    unfolding request_agent
    request_agent-Rows lib actor_id key payload = search (keeps_rules, replay_or_request-Rows)

    decide_new-Rows :
        (r : AgentRequestRecord) (actor_id key command_hash : String) (decision : AgentDecision)
        (reason : String)
        → P r
        → Keeps Rows (decide_new r actor_id key command_hash decision reason)
    unfolding decide_new
    decide_new-Rows r actor_id key command_hash decision reason p =
        Keeps-raise_if-bind _ _ _ (λ pending. Keeps-raise_if-bind _ _ _ (λ other.
          Keeps-bind _ _ (search keeps_rules) (λ now.
            Keeps-bind _ _
              (save_request-Rows _
                (w.decided r actor_id key command_hash decision reason now (ground arith) other p))
              (λ u. search (keeps_rules, transition_audit-Rows, commit_or_conflict-Rows)))))

    pub decide_agent_request-Rows :
        (lib : TextLibrary) (id : ℕ) (actor_id key : String) (decision : AgentDecision)
        (reason : String)
        → Keeps Rows (decide_agent_request lib id actor_id key decision reason)
    unfolding decide_agent_request decide_row
    decide_agent_request-Rows lib id actor_id key decision reason =
        get_agent_request-bind id _
          (λ r p. search (keeps_rules, Keeps-if, decide_new-Rows r _ _ _ _ _ p))

    apply_new-Rows :
        (r : AgentRequestRecord) (actor_id key command_hash : String) (outcome : Outcome)
        → P r
        → Keeps Rows (apply_new r actor_id key command_hash outcome)
    unfolding apply_new
    apply_new-Rows r actor_id key command_hash outcome p = Keeps-raise_if-bind _ _ _ (λ admitted.
        Keeps-raise_if-bind _ _ _ (λ coded. Keeps-bind _ _ (search keeps_rules) (λ now.
          Keeps-bind _ _
            (save_request-Rows _
              (w.applied r actor_id key command_hash outcome now (ground arith) p))
            (λ u. search (keeps_rules, transition_audit-Rows, commit_or_conflict-Rows)))))

    pub record_application-Rows :
        (lib : TextLibrary) (id : ℕ) (actor_id key : String) (outcome : Outcome)
        → Keeps Rows (record_agent_request_application lib id actor_id key outcome)
    unfolding record_agent_request_application apply_row
    record_application-Rows lib id actor_id key outcome =
        get_agent_request-bind id _
          (λ r p. search (keeps_rules, Keeps-if, apply_new-Rows r _ _ _ _ p))

    retire_new-Rows :
        (r : AgentRequestRecord) (actor_id key command_hash reason : String)
        → P r
        → Keeps Rows (retire_new r actor_id key command_hash reason)
    unfolding retire_new
    retire_new-Rows r actor_id key command_hash reason p = Keeps-raise_if-bind _ _ _ (λ admitted.
        Keeps-bind _ _ (search keeps_rules) (λ now.
          Keeps-bind _ _
            (save_request-Rows _
              (w.retired r actor_id key command_hash reason now (ground arith) p))
            (λ u. search (keeps_rules, transition_audit-Rows, commit_or_conflict-Rows))))

    pub retire_agent_request-Rows :
        (lib : TextLibrary) (id : ℕ) (actor_id key reason : String)
        → Keeps Rows (retire_agent_request lib id actor_id key reason)
    unfolding retire_agent_request retire_row
    retire_agent_request-Rows lib id actor_id key reason =
        get_agent_request-bind id _
          (λ r p. search (keeps_rules, Keeps-if, retire_new-Rows r _ _ _ _ p))
