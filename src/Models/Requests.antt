-- ===== src/Models/Requests.antt =====
-- The table of agent requests in models.py and the words of its column `status`.
use hermes_orchestrator.Prelude.{ℕ, Bool, true, false, String, Option}
use hermes_orchestrator.Models.Json.{Fields}

pub data RequestStatus : Type 0 where
  pending approved rejected applied apply_failed retired : RequestStatus

pub record AgentRequestRecord : Type 0 where
  pub id : ℕ
  pub idempotency_key : String
  pub request_hash : String
  pub requested_by_actor_id : String
  pub payload : Fields
  pub status : RequestStatus
  pub decision_idempotency_key : Option String
  pub decision_hash : Option String
  pub decided_by_actor_id : Option String
  pub decision_reason : Option String
  pub decided_at : Option ℕ
  pub application_idempotency_key : Option String
  pub application_hash : Option String
  pub applied_by_actor_id : Option String
  pub applied_at : Option ℕ
  pub application_error_code : Option String
  pub application_error_detail : Option String
  pub retirement_idempotency_key : Option String
  pub retirement_hash : Option String
  pub retired_by_actor_id : Option String
  pub retirement_reason : Option String
  pub retired_at : Option ℕ

-- The text of a status.
abbrev pub request_status_text : RequestStatus → String
request_status_text pending = "pending"
request_status_text approved = "approved"
request_status_text rejected = "rejected"
request_status_text applied = "applied"
request_status_text apply_failed = "apply_failed"
request_status_text retired = "retired"

-- `request.status == "pending"`
abbrev pub is_pending_request : RequestStatus → Bool
is_pending_request pending = true
is_pending_request approved = false
is_pending_request rejected = false
is_pending_request applied = false
is_pending_request apply_failed = false
is_pending_request retired = false

-- `request.status in {"approved", "apply_failed"}`
abbrev pub admits_application : RequestStatus → Bool
admits_application pending = false
admits_application approved = true
admits_application rejected = false
admits_application applied = false
admits_application apply_failed = true
admits_application retired = false

-- `request.status in {"applied", "apply_failed"}`
abbrev pub admits_retirement : RequestStatus → Bool
admits_retirement pending = false
admits_retirement approved = false
admits_retirement rejected = false
admits_retirement applied = true
admits_retirement apply_failed = true
admits_retirement retired = false
