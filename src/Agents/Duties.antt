-- ===== src/Agents/Duties.antt =====
-- Who decides a request, and which decisions are final, whatever sequence of operations is served.
use hermes_orchestrator.Prelude.{
  ℕ, ◌<◌, ◌≡◌, ◌≢◌, refl, Bool, true, false, ◌&&◌, String, some, arith, eq_iff, str_eq, sym, ◌∙◌,
}
use hermes_orchestrator.Models.Requests.{
  RequestStatus, AgentRequestRecord, is_pending_request, admits_application, admits_retirement,
}
use hermes_orchestrator.Store.Exec.{AgentRequestRecord-Keyed}
use hermes_orchestrator.Agents.Requests.{
  AgentDecision, is_approval, approve, reject, new_request, decided_request,
}
use hermes_orchestrator.Agents.Application.{
  Outcome, applied, failed, applied_request, retired_request,
}
use hermes_orchestrator.Agents.Rows.{Written}

-- The statuses of a request that was approved at some time.
abbrev pub was_approved : RequestStatus → Bool
was_approved RequestStatus.pending = false
was_approved RequestStatus.approved = true
was_approved RequestStatus.rejected = false
was_approved RequestStatus.applied = true
was_approved RequestStatus.apply_failed = true
was_approved RequestStatus.retired = true

-- Someone else than the requester decided.
pub record OtherDecided (r : AgentRequestRecord) : Type 0 where
  pub decider : String
  pub decided : r.decided_by_actor_id ≡ some decider
  pub other : decider ≢ r.requested_by_actor_id

abbrev pub Separated : AgentRequestRecord → Type 0
Separated r = was_approved r.status ≡ true → OtherDecided r

abbrev pub Always : ℕ → Type 0
Always n = Unit

decided-Separated :
    (r : AgentRequestRecord) (actor_id key command_hash : String) (decision : AgentDecision)
    (reason : String) (now : ℕ)
    → is_approval decision && str_eq actor_id r.requested_by_actor_id ≡ false
    → Separated (decided_request r actor_id key command_hash decision reason now)
unfolding decided_request
decided-Separated r actor_id key command_hash approve reason now guard on = record {
  decider = actor_id;
  decided = refl;
  other = λ same. ground (arith, eq_iff actor_id r.requested_by_actor_id);
}
decided-Separated r actor_id key command_hash reject reason now guard on = cc

admitted-was_approved :
    (status : RequestStatus) → admits_application status ≡ true → was_approved status ≡ true
admitted-was_approved status h = ground arith

retirable-was_approved :
    (status : RequestStatus) → admits_retirement status ≡ true → was_approved status ≡ true
retirable-was_approved status h = ground arith

applied-Separated :
    (r : AgentRequestRecord) (actor_id key command_hash : String) (outcome : Outcome) (now : ℕ)
    → OtherDecided r
    → OtherDecided (applied_request r actor_id key command_hash outcome now)
unfolding applied_request
applied-Separated r actor_id key command_hash applied now o = record {
  decider = o.decider;
  decided = o.decided;
  other = o.other;
}
applied-Separated r actor_id key command_hash (failed code detail) now o = record {
  decider = o.decider;
  decided = o.decided;
  other = o.other;
}

pub Separated-Written : Written Always Separated
unfolding new_request retired_request
Separated-Written = record {
  more = λ n b. b;
  requested = λ n actor_id key request_hash payload b on. cc;
  decided = λ r actor_id key command_hash decision reason now pending guard h.
      decided-Separated r actor_id key command_hash decision reason now guard;
  applied = λ r actor_id key command_hash outcome now admitted h on.
      applied-Separated r actor_id key command_hash outcome now
        (h (admitted-was_approved r.status admitted));
  retired = λ r actor_id key command_hash reason now admitted h on.
      let o = h (retirable-was_approved r.status admitted) in
      record { decider = o.decider; decided = o.decided; other = o.other };
}

-- The statuses that no operation leaves.
abbrev pub is_final : RequestStatus → Bool
is_final RequestStatus.pending = false
is_final RequestStatus.approved = false
is_final RequestStatus.rejected = true
is_final RequestStatus.applied = false
is_final RequestStatus.apply_failed = false
is_final RequestStatus.retired = true

module _ (id : ℕ) (status : RequestStatus) (final : is_final status ≡ true) where
  abbrev pub Given : ℕ → Type 0
  Given n = id < n

  -- The request has the status, if it is the one.
  abbrev pub Stays : AgentRequestRecord → Type 0
  Stays r = r.id ≡ id → r.status ≡ status

  not_pending : (st : RequestStatus) → st ≡ status → is_pending_request st ≢ true
  not_pending st e h = ground (arith, final)

  not_admitted : (st : RequestStatus) → st ≡ status → admits_application st ≢ true
  not_admitted st e h = ground (arith, final)

  not_retirable : (st : RequestStatus) → st ≡ status → admits_retirement st ≢ true
  not_retirable st e h = ground (arith, final)

  applied_id :
      (r : AgentRequestRecord) (actor_id key command_hash : String) (outcome : Outcome) (now : ℕ)
      → (applied_request r actor_id key command_hash outcome now).id ≡ r.id
  unfolding applied_request
  applied_id r actor_id key command_hash applied now = refl
  applied_id r actor_id key command_hash (failed code detail) now = refl

  pub Stays-Written : Written Given Stays
  unfolding new_request decided_request retired_request
  Stays-Written = record {
    more = λ n b. omega (arith, b);
    requested = λ n actor_id key request_hash payload b e. absurd (omega (arith, b, e));
    decided = λ r actor_id key command_hash decision reason now pending guard h e.
        absurd (not_pending r.status (h e) pending);
    applied = λ r actor_id key command_hash outcome now admitted h e. absurd (
        not_admitted r.status (h (sym (applied_id r actor_id key command_hash outcome now) ∙ e))
          admitted);
    retired = λ r actor_id key command_hash reason now admitted h e.
        absurd (not_retirable r.status (h e) admitted);
  }
