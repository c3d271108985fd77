-- ===== src/Agents/Retry.antt =====
-- A second try of an application that failed, under the key of the first.
use hermes_orchestrator.Prelude.{
  if_true, if_false, ℕ, ◌≡◌, ◌≢◌, refl, sym, ◌∙◌, Bool, true, false, ◌&&◌, not, String, Option,
  none, some, arith, eq_iff, str_eq, or_else, ap, subst, Bool-cases, inl, inr,
}
use hermes_orchestrator.Models.Json.{get, as_text}
use hermes_orchestrator.Models.Requests.{RequestStatus, AgentRequestRecord, admits_application}
use hermes_orchestrator.Models.Settings.{TextLibrary}
use hermes_orchestrator.Store.Table
use hermes_orchestrator.Store.Exec.{
  Session, Exception, ok, err, Exec, AgentRequestRecord-Keyed, ◌>>=◌, raise_if, ◌>>◌,
}
use hermes_orchestrator.Usage.Circuit.{opt_str_eq}
use hermes_orchestrator.Agents.Requests.{RequestAgentResult, get_agent_request}
use hermes_orchestrator.Agents.Application.{
  applied, outcome_fields, record_agent_request_application, apply_row,
}
use hermes_orchestrator.Agents.Payload.{ProvisioningPayload, payload_of}
use hermes_orchestrator.Agents.Provisioning.{
  ProvisionerResult, done, AgentProvisioner, AgentProvisioningResult,
}
use hermes_orchestrator.Agents.Provision.{
  provision_agent_request, provision_row, provision_new, apply_result, is_applied,
}

-- What follows an action that returned.
bind_to :
    {A B : Type 0} (m : Exec A) (f : A → Exec B) (s s' : Session) (a : A)
    → m s ≡ (ok a, s')
    → (m >>= f) s ≡ f a s'
unfolding ◌>>=◌
bind_to m f s s' a h = rw h refl

-- An action whose first step raises.
bind_err :
    {A B : Type 0} (m : Exec A) (f : A → Exec B) (s s' : Session) (e : Exception)
    → m s ≡ (err e, s')
    → (m >>= f) s ≡ (err e, s')
unfolding ◌>>=◌
bind_err m f s s' e h = rw h refl

found_request :
    (id : ℕ) (s : Session) (r : AgentRequestRecord)
    → Table.get id s.current.agent_requests ≡ some r
    → get_agent_request id s ≡ (ok r, s)
unfolding get_agent_request ◌>>=◌
found_request id s r h = rw h refl

opt_str_eq-false : (o : Option String) (t : String) → o ≢ some t → opt_str_eq o (some t) ≡ false
opt_str_eq-false none t h = refl
opt_str_eq-false (some x) t h = elim (Bool-cases (str_eq x t)) [
  | inl same ↦ absurd (h (ground (arith, eq_iff x t)))
  | inr other ↦ other
]

raise_then :
    {B : Type 0} (c : Bool) (e : Exception) (m : Exec B) (s : Session)
    → c ≡ true
    → (raise_if c e >> m) s ≡ (err e, s)
unfolding ◌>>=◌
raise_then true e m s h = refl
raise_then false e m s h = cc

str_eq_self : (t : String) → str_eq t t ≡ true
str_eq_self t = ground (arith, eq_iff t t)

key_matches : (o : Option String) (key : String) → o ≡ some key → opt_str_eq o (some key) ≡ true
key_matches o key h = rw h (str_eq_self key)

not_applied :
    (c : Bool) (status : RequestStatus)
    → status ≡ RequestStatus.apply_failed
    → (c && is_applied status) ≡ false
not_applied true status h = rw h refl
not_applied false status h = refl

may_apply :
    (status : RequestStatus)
    → status ≡ RequestStatus.apply_failed
    → not (admits_application status) ≡ false
may_apply status h = rw h refl

module _ (lib : TextLibrary) (id : ℕ) (actor_id key : String) (s : Session)
    (r : AgentRequestRecord) where
  apply_row_conflict :
      r.application_idempotency_key ≡ some key
      → r.application_hash ≢ some (lib.digest (outcome_fields applied))
      → apply_row r actor_id key (lib.digest (outcome_fields applied)) applied s
        ≡ (err Exception.agent_conflict, s)
  unfolding apply_row
  apply_row_conflict keyed hashed =
      ap (λ (m : Exec RequestAgentResult). m s)
        (if_true _ _ _ (key_matches r.application_idempotency_key key keyed))
      ∙ raise_then _ Exception.agent_conflict _ s (
          ground (
            arith,
            opt_str_eq-false r.application_hash (lib.digest (outcome_fields applied)) hashed,
          ))

  -- The record of a success under the key of a failure is a conflict.
  application_conflict :
      Table.get id s.current.agent_requests ≡ some r
      → r.application_idempotency_key ≡ some key
      → r.application_hash ≢ some (lib.digest (outcome_fields applied))
      → record_agent_request_application lib id actor_id key applied s
        ≡ (err Exception.agent_conflict, s)
  unfolding record_agent_request_application
  application_conflict found keyed hashed =
      bind_to (get_agent_request id) _ s s r (found_request id s r found)
      ∙ apply_row_conflict keyed hashed

  apply_result_conflict :
      (payload : ProvisioningPayload) (slug : String) (result : ProvisionerResult) (sha : String)
      → Table.get r.id s.current.agent_requests ≡ some r
      → r.id ≡ id
      → r.application_idempotency_key ≡ some key
      → r.application_hash ≢ some (lib.digest (outcome_fields applied))
      → result.credential_sha256 ≡ some sha
      → str_eq sha "" ≡ false
      → apply_result lib r payload slug actor_id key result s ≡ (err Exception.agent_conflict, s)
  unfolding apply_result
  apply_result_conflict payload slug result sha found same keyed hashed credential nonempty =
      ap (λ (m : Exec AgentProvisioningResult). m s)
        (if_false _ _ _
          (ap (λ (o : Option String). str_eq (or_else o "") "") credential ∙ nonempty))
      ∙ bind_err (record_agent_request_application lib r.id actor_id key applied) _ s s
          Exception.agent_conflict
          (subst
            (λ (i : ℕ).
              record_agent_request_application lib i actor_id key applied s
              ≡ (err Exception.agent_conflict, s))
            (sym same)
            (application_conflict
              (subst (λ (i : ℕ). Table.get i s.current.agent_requests ≡ some r) same found) keyed
              hashed))

  provision_row_conflict :
      (provisioner : AgentProvisioner) (payload : ProvisioningPayload) (result : ProvisionerResult)
      (sha : String)
      → Table.get r.id s.current.agent_requests ≡ some r
      → r.id ≡ id
      → r.status ≡ RequestStatus.apply_failed
      → r.application_idempotency_key ≡ some key
      → r.application_hash ≢ some (lib.digest (outcome_fields applied))
      → payload_of lib r.id r.payload s ≡ (ok payload, s)
      → provisioner.apply payload ≡ done result
      → result.credential_sha256 ≡ some sha
      → str_eq sha "" ≡ false
      → provision_row lib provisioner actor_id key r s ≡ (err Exception.agent_conflict, s)
  unfolding provision_row provision_new ◌>>=◌
  provision_row_conflict provisioner payload result sha found same failed_ keyed hashed valid
        answered credential nonempty =
      rw (not_applied (opt_str_eq r.application_idempotency_key (some key)) r.status failed_) (
        rw (may_apply r.status failed_) (
          rw valid (
            rw answered (
              apply_result_conflict payload (or_else (as_text (get "slug" r.payload)) "") result sha
                found same keyed hashed credential nonempty))))

  -- When an application has failed under a key, a second try under that key, with a valid payload
  -- that the provisioner applies with a credential, ends as an idempotency conflict and leaves the
  -- session as it was, unless the stored digest is that of a success.
  pub provision_retry :
      (provisioner : AgentProvisioner) (payload : ProvisioningPayload) (result : ProvisionerResult)
      (sha : String)
      → Table.get id s.current.agent_requests ≡ some r
      → r.status ≡ RequestStatus.apply_failed
      → r.application_idempotency_key ≡ some key
      → r.application_hash ≢ some (lib.digest (outcome_fields applied))
      → payload_of lib r.id r.payload s ≡ (ok payload, s)
      → provisioner.apply payload ≡ done result
      → result.credential_sha256 ≡ some sha
      → sha ≢ ""
      → provision_agent_request lib provisioner id actor_id key s
        ≡ (err Exception.agent_conflict, s)
  unfolding provision_agent_request
  provision_retry provisioner payload result sha found failed_ keyed hashed valid answered
        credential nonempty =
      bind_to (get_agent_request id) _ s s r (found_request id s r found)
      ∙ provision_row_conflict provisioner payload result sha
          (subst (λ (i : ℕ). Table.get i s.current.agent_requests ≡ some r)
            (sym (Table.get-key id s.current.agent_requests r found)) found)
          (Table.get-key id s.current.agent_requests r found) failed_ keyed hashed valid answered
          credential (ground (arith, eq_iff sha ""))
