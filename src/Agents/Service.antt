-- ===== src/Agents/Service.antt =====
-- The operations on agent requests as requests to one store (the routes of api.py and
-- provisioning_api.py, and the policy's coordinator), and the states that a sequence reaches.
use hermes_orchestrator.Prelude.{ℕ, ◌≡◌, ◌<◌, true, String, All}
use hermes_orchestrator.Models.Json.{Fields}
use hermes_orchestrator.Models.Requests.{RequestStatus, AgentRequestRecord}
use hermes_orchestrator.Models.Settings.{Settings, TextLibrary}
use hermes_orchestrator.Store.Exec.{Db, Exec, pure, request, AgentRequestRecord-Keyed, ◌>>◌}
use hermes_orchestrator.Store.Keeps.{Keeps, Keeps-request, Keeps-bind, Keeps-pure}
use hermes_orchestrator.Agents.Requests.{AgentDecision, request_agent, decide_agent_request}
use hermes_orchestrator.Agents.Application.{retire_agent_request}
use hermes_orchestrator.Agents.Provisioning.{AgentProvisioner}
use hermes_orchestrator.Agents.Provision.{provision_agent_request}
use hermes_orchestrator.Agents.Removal.{rollback_agent_request}
use hermes_orchestrator.Agents.Process.{process_agent_request}
use hermes_orchestrator.Agents.Rows.{
  Rows, Written, request_agent-Rows, decide_agent_request-Rows, retire_agent_request-Rows,
}
use hermes_orchestrator.Agents.Rows.Provisioning.{provision-Rows, rollback-Rows}
use hermes_orchestrator.Agents.Rows.Policy.{process-Rows}
use hermes_orchestrator.Agents.Duties.{
  Separated, Always, Separated-Written, is_final, Given, Stays, Stays-Written,
}

-- A call by one of the clients; the provisioner's answers are those of the call.
pub data AgentCall : Type 0 where
  ask : String → String → Fields → AgentCall
  decide : ℕ → String → String → AgentDecision → String → AgentCall
  retire : ℕ → String → String → String → AgentCall
  provision : AgentProvisioner → ℕ → String → String → AgentCall
  undo : AgentProvisioner → ℕ → String → String → String → AgentCall
  process : AgentProvisioner → ℕ → AgentCall

-- The operation that a call runs.
unfoldable pub perform : TextLibrary → Settings → AgentCall → Exec Unit
perform lib settings (ask actor_id key payload) = request_agent lib actor_id key payload >> pure tt
perform lib settings (decide id actor_id key decision reason) =
    decide_agent_request lib id actor_id key decision reason >> pure tt
perform lib settings (retire id actor_id key reason) =
    retire_agent_request lib id actor_id key reason >> pure tt
perform lib settings (provision provisioner id actor_id key) =
    provision_agent_request lib provisioner id actor_id key >> pure tt
perform lib settings (undo provisioner id actor_id key reason) =
    rollback_agent_request lib provisioner id actor_id key reason >> pure tt
perform lib settings (process provisioner id) =
    process_agent_request lib settings provisioner id >> pure tt

-- The stored states that calls reach, each in a session of its own.
pub data Performs (lib : TextLibrary) (settings : Settings) (d : Db) : Db → Type 0 where
  start : Performs lib settings d d
  perform_next :
      (d' : Db) (c : AgentCall) (now : ℕ)
      → Performs lib settings d d'
      → Performs lib settings d (request (perform lib settings c) now d').1

module _ (B : ℕ → Type 0) (P : AgentRequestRecord → Type 0) (w : Written B P) where
  then_done : {A : Type 0} {m : Exec A} → Keeps (Rows B P) m → Keeps (Rows B P) (m >> pure tt)
  then_done km = Keeps-bind _ _ km (λ _. Keeps-pure tt)

  perform-Rows :
      (lib : TextLibrary) (settings : Settings) (c : AgentCall)
      → Keeps (Rows B P) (perform lib settings c)
  unfolding perform
  perform-Rows lib settings (ask actor_id key payload) =
      then_done (request_agent-Rows B P w lib actor_id key payload)
  perform-Rows lib settings (decide id actor_id key decision reason) =
      then_done (decide_agent_request-Rows B P w lib id actor_id key decision reason)
  perform-Rows lib settings (retire id actor_id key reason) =
      then_done (retire_agent_request-Rows B P w lib id actor_id key reason)
  perform-Rows lib settings (provision provisioner id actor_id key) =
      then_done (provision-Rows B P w lib provisioner id actor_id key)
  perform-Rows lib settings (undo provisioner id actor_id key reason) =
      then_done (rollback-Rows B P w lib provisioner id actor_id key reason)
  perform-Rows lib settings (process provisioner id) =
      then_done (process-Rows B P w lib settings provisioner id)

  Performs-Rows :
      (lib : TextLibrary) (settings : Settings) (d d' : Db)
      → Rows B P d
      → Performs lib settings d d'
      → Rows B P d'
  Performs-Rows lib settings d d' h start = h
  Performs-Rows lib settings d d' h (perform_next d'' c now earlier) =
      Keeps-request (perform lib settings c) now d'' (perform-Rows lib settings c)
        (Performs-Rows lib settings d d'' h earlier)

-- Whatever sequence of calls is served to a store whose approved requests were each decided by
-- another actor than the requester, this stays so: every request that is approved, applied,
-- failed in its application or retired was decided by someone else than who asked for it.
pub Performs-Separated :
    (lib : TextLibrary) (settings : Settings) (d d' : Db)
    → All Separated d.agent_requests
    → Performs lib settings d d'
    → All Separated d'.agent_requests
Performs-Separated lib settings d d' h reached =
    (Performs-Rows Always Separated Separated-Written lib settings d d' (tt, h) reached).1

-- A request that is rejected or retired stays so, whatever calls are served after: every stored row
-- with its identifier has that status.
pub Performs-final :
    (lib : TextLibrary) (settings : Settings) (d d' : Db) (id : ℕ) (status : RequestStatus)
    → is_final status ≡ true
    → id < d.next_id
    → All (λ (r : AgentRequestRecord). r.id ≡ id → r.status ≡ status) d.agent_requests
    → Performs lib settings d d'
    → All (λ (r : AgentRequestRecord). r.id ≡ id → r.status ≡ status) d'.agent_requests
Performs-final lib settings d d' id status final given h reached =
    (Performs-Rows (Given id status final) (Stays id status final) (Stays-Written id status final)
      lib settings d d' (given, h) reached).1
