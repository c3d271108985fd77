-- ===== src/Environments/Approved.antt =====
-- What a promotion and a rollback that went through have been approved by.
pub mod Promotion
pub mod Reversal
use hermes_orchestrator.Prelude.{
  ap, ℕ, ◌≡◌, ◌≢◌, refl, sym, ◌∙◌, subst, Bool, true, false, ◌⊎◌, inl, inr, String, Option, none,
  some, List, [], ◌∷◌, arith, eq_iff, str_eq, str_in, is_some, not, some_and,
}
use hermes_orchestrator.Models.Json.{Fields}
use hermes_orchestrator.Models.Environments.{
  EnvironmentDeployment, EnvironmentAction, EnvironmentApprovalEvidence, EnvironmentPromotionCreate,
  EnvironmentRollbackCreate, PromotionTarget, pre, prod_sim, live, target_text, status_is_active,
}
use hermes_orchestrator.Models.Settings.{Settings, TextLibrary}
use hermes_orchestrator.Store.Table
use hermes_orchestrator.Store.Exec.{
  Db, Session, Result, ok, err, pure, gets, save_action, ◌>>=◌, EnvironmentDeployment-Keyed,
}
use hermes_orchestrator.Store.Inversion.{gets-bind-ok, bind-ok, pair_of}
use hermes_orchestrator.Policy.Permissions.{Permission, actor_is_allowed, lookup}
use hermes_orchestrator.Environments.Action.{
  EnvironmentResult, reject_if, or_reject, reject, audit, approve, may_approve,
}
use hermes_orchestrator.Environments.Install.{
  Draft, new_deployment, current_of, add_deployment, replace, finish,
}
use hermes_orchestrator.Environments.Promote.{
  promotion_source, ref_differs, promoted_ref, promotion_draft, promote_from, promote_new,
  promote_environment, expected_source, is_safe_tag,
}
use hermes_orchestrator.Environments.Slots.{Deployments}
use hermes_orchestrator.Environments.Governed.Promotion.{promotion_source_of, ref_differs-false}
use hermes_orchestrator.Environments.Inversion.{
  reject_if-bind-ok, or_reject-bind-ok, Begun-ok, Begun,
}

-- Another actor who may decide approvals, and who is an owner or an operator where one is asked for.
pub record Independent (settings : Settings) (requester approver : String) (operator_only : Bool)
    : Type 0 where
  pub other : approver ≢ requester
  pub decides : actor_is_allowed approver Permission.approvals_decide settings.actor_roles ≡ true
  pub operates :
      operator_only ≡ true
      → (lookup approver settings.actor_roles ≡ some "owner")
        ⊎ (lookup approver settings.actor_roles ≡ some "operator")

operator_role :
    (role : Option String)
    → some_and (λ r. str_in r ("owner" ∷ "operator" ∷ [])) role ≡ true
    → (role ≡ some "owner") ⊎ (role ≡ some "operator")
operator_role none h = absurd (ground arith)
operator_role (some r) h = ground (arith, eq_iff "owner" r, eq_iff "operator" r)

may_approve-Independent :
    (settings : Settings) (requester approver : String) (operator_only : Bool)
    → may_approve settings requester operator_only approver ≡ true
    → Independent settings requester approver operator_only
unfolding may_approve
may_approve-Independent settings requester approver operator_only h = record {
  other = λ same. ground (arith, eq_iff approver requester);
  decides = ground arith;
  operates = λ only. operator_role (lookup approver settings.actor_roles) (ground (arith, only));
}

-- An approval that was accepted, with the record that carries it.
pub approve-Independent :
    (settings : Settings) (a approved : EnvironmentAction) (requester : String)
    (o : Option EnvironmentApprovalEvidence) (operator_only : Bool)
    → approve settings a requester o operator_only ≡ some approved
    → (evidence : EnvironmentApprovalEvidence) × (o ≡ some evidence)
      × (approved.approval_actor_id ≡ some evidence.actor_id)
      × Independent settings requester evidence.actor_id operator_only
unfolding approve
approve-Independent settings a approved requester none operator_only h = absurd (ground arith)
approve-Independent settings a approved requester (some evidence) operator_only h = (
  evidence,
  refl,
  ground arith,
  may_approve-Independent settings requester evidence.actor_id operator_only (ground arith),
)

ok_value :
    {A : Type 0} (a b : A) (s s' : Session)
    → ◌≡◌ {A = Result A × Session} (ok a, s) (ok b, s')
    → b ≡ a
ok_value a b s s' h = cc

pub replace-finish-ok :
    (prev : Option EnvironmentDeployment) (draft : Draft) (a : EnvironmentAction)
    (actor_id event_type : String) (payload : Fields) (s s' : Session) (r : EnvironmentResult)
    → (replace prev draft >>= λ e. finish a actor_id event_type prev payload e) s ≡ (ok r, s')
    → (now : ℕ) × (id : ℕ) × (r.deployment ≡ new_deployment draft now id)
unfolding replace add_deployment finish ◌>>=◌
replace-finish-ok none draft a actor_id event_type payload s s' r h =
    (s.clock, s.current.next_id, ap (λ x. x.deployment) (ok_value _ r _ s' h))
replace-finish-ok (some x) draft a actor_id event_type payload s s' r h =
    (s.clock, s.current.next_id, ap (λ x. x.deployment) (ok_value _ r _ s' h))
