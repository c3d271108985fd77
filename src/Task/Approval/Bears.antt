-- ===== src/Task/Approval/Bears.antt =====
-- What an approval says once it is decided (`resolve_approval`).
use hermes_orchestrator.Prelude.{
  ℕ, ◌≡◌, refl, ◌∙◌, ap, true, String, Option, none, some, arith, eq_iff,
}
use hermes_orchestrator.Models.Status.{ApprovalStatus, approval_status_eq}
use hermes_orchestrator.Models.Rows.{Approval}
use hermes_orchestrator.Store.Exec.{Run-Keyed, Task-Keyed, Approval-Keyed}
use hermes_orchestrator.Usage.Circuit.{opt_str_eq}
use hermes_orchestrator.Task.Approval.{
  Decision, approved, rejected, decided, decision_status, same_decision,
}

-- The approval bears that decision.
pub record Bears (actor_id key : String) (decision : Decision) (reason : String) (a : Approval)
    : Type 0 where
  pub approval : decision ≡ approved → a.status ≡ ApprovalStatus.approved
  pub rejection : decision ≡ rejected → a.status ≡ ApprovalStatus.rejected
  pub decider : a.decided_by_actor_id ≡ some actor_id
  pub because : a.decision_reason ≡ some reason
  pub under : a.decision_idempotency_key ≡ some key

-- The columns of an approval that a decision leaves.
pub record SameRequest (a a' : Approval) : Type 0 where
  pub id : a'.id ≡ a.id
  pub run_id : a'.run_id ≡ a.run_id
  pub action : a'.action ≡ a.action
  pub context_snapshot : a'.context_snapshot ≡ a.context_snapshot
  pub requested_by_actor_id : a'.requested_by_actor_id ≡ a.requested_by_actor_id
  pub expires_at : a'.expires_at ≡ a.expires_at
  pub created_at : a'.created_at ≡ a.created_at

pub decided-Bears :
    (a : Approval) (actor_id key : String) (decision : Decision) (reason : String) (now : ℕ)
    → Bears actor_id key decision reason (decided a actor_id key decision reason now)
unfolding decided
decided-Bears a actor_id key approved reason now = record {
  approval = λ e. refl;
  rejection = λ e. cc;
  decider = refl;
  because = refl;
  under = refl;
}
decided-Bears a actor_id key rejected reason now = record {
  approval = λ e. cc;
  rejection = λ e. refl;
  decider = refl;
  because = refl;
  under = refl;
}

pub decided-decided_at :
    (a : Approval) (actor_id key : String) (decision : Decision) (reason : String) (now : ℕ)
    → (decided a actor_id key decision reason now).decided_at ≡ some now
unfolding decided
decided-decided_at a actor_id key decision reason now = refl

status_same :
    (st : ApprovalStatus) (decision : Decision)
    → approval_status_eq st (decision_status decision) ≡ true
    → st ≡ decision_status decision
status_same ApprovalStatus.pending approved h = absurd (ground arith)
status_same ApprovalStatus.pending rejected h = absurd (ground arith)
status_same ApprovalStatus.approved approved h = refl
status_same ApprovalStatus.approved rejected h = absurd (ground arith)
status_same ApprovalStatus.rejected approved h = absurd (ground arith)
status_same ApprovalStatus.rejected rejected h = refl
status_same ApprovalStatus.expired approved h = absurd (ground arith)
status_same ApprovalStatus.expired rejected h = absurd (ground arith)

opt_same : (o : Option String) (x : String) → opt_str_eq o (some x) ≡ true → o ≡ some x
opt_same none x h = cc
opt_same (some y) x h = ground (arith, eq_iff y x)

-- A repeated decision is the one that the approval bears.
pub same_decision-Bears :
    (a : Approval) (actor_id key : String) (decision : Decision) (reason : String)
    → same_decision a actor_id key decision reason ≡ true
    → Bears actor_id key decision reason a
unfolding same_decision
same_decision-Bears a actor_id key decision reason h =
    let status : a.status ≡ decision_status decision =
      status_same a.status decision (ground arith) in
    record {
      approval = λ e. status ∙ ap decision_status e;
      rejection = λ e. status ∙ ap decision_status e;
      decider = opt_same _ actor_id (ground arith);
      because = opt_same _ reason (ground arith);
      under = opt_same _ key (ground arith);
    }

pub decided-SameRequest :
    (a : Approval) (actor_id key : String) (decision : Decision) (reason : String) (now : ℕ)
    → SameRequest a (decided a actor_id key decision reason now)
unfolding decided
decided-SameRequest a actor_id key decision reason now = record {
  id = refl;
  run_id = refl;
  action = refl;
  context_snapshot = refl;
  requested_by_actor_id = refl;
  expires_at = refl;
  created_at = refl;
}
