-- ===== src/Environments/Approved/Promotion.antt =====
-- What a promotion that went through has passed.
use hermes_orchestrator.Prelude.{
  ap, ℕ, ◌≡◌, ◌≢◌, refl, sym, subst, true, false, ◌⊎◌, inl, inr, String, none, some, arith, str_eq,
  str_in,
}
use hermes_orchestrator.Models.Environments.{
  EnvironmentDeployment, EnvironmentAction, EnvironmentApprovalEvidence, EnvironmentPromotionCreate,
  PromotionTarget, pre, prod_sim, live, target_text, status_is_active,
}
use hermes_orchestrator.Models.Settings.{Settings, TextLibrary}
use hermes_orchestrator.Store.Table
use hermes_orchestrator.Store.Exec.{Session, ok, save_action, ◌>>=◌, EnvironmentDeployment-Keyed}
use hermes_orchestrator.Store.Inversion.{gets-bind-ok, bind-ok, pair_of}
use hermes_orchestrator.Environments.Action.{EnvironmentResult, reject_if, or_reject, reject, audit}
use hermes_orchestrator.Environments.Install.{new_deployment}
use hermes_orchestrator.Environments.Promote.{
  promoted_ref, promotion_draft, promote_from, promote_new, promote_environment, expected_source,
  is_safe_tag,
}
use hermes_orchestrator.Environments.Slots.{Deployments}
use hermes_orchestrator.Environments.Governed.Promotion.{promotion_source_of, ref_differs-false}
use hermes_orchestrator.Environments.Inversion.{reject_if-bind-ok, or_reject-bind-ok, Begun-ok}
use hermes_orchestrator.Environments.Approved.{Independent, approve-Independent, replace-finish-ok}

-- The reference that a promotion fixes its target by.
pub FixedBy : EnvironmentPromotionCreate → String → String → Type 0
FixedBy body kind value =
    ((body.target_environment ≡ pre)
      × (body.tag ≡ none)
      × (kind ≡ "sha")
      × (value ≡ body.resolved_sha))
    ⊎ ((body.target_environment ≡ prod_sim)
        × (body.tag ≡ some value)
        × (kind ≡ "tag")
        × (is_safe_tag value ≡ true))

-- A promotion of a stored, active deployment of the environment below, approved independently.
pub record Promoted (settings : Settings) (body : EnvironmentPromotionCreate) (actor_id : String)
    (t : Deployments) (e : EnvironmentDeployment) : Type 0 where
  pub source : EnvironmentDeployment
  pub stored : Table.get body.source_deployment_id t ≡ some source
  pub active : status_is_active source.status ≡ true
  pub below : source.environment ≡ expected_source (target_text body.target_environment)
  pub allowed : str_in body.repository settings.environment_allowed_repositories ≡ true
  pub same_repository : e.repository ≡ source.repository
  pub same_sha : e.resolved_sha ≡ source.resolved_sha
  pub approver : String
  pub named : e.approval_actor_id ≡ some approver
  pub independent :
      Independent settings actor_id approver
        (str_eq (target_text body.target_environment) "prod-sim")
  pub environment : e.environment ≡ target_text body.target_environment
  pub fixed : FixedBy body e.ref_kind e.ref_value

target_cases : (t : PromotionTarget) → (t ≡ pre) ⊎ (t ≡ prod_sim) ⊎ (t ≡ live)
target_cases pre = inl refl
target_cases prod_sim = inr (inl refl)
target_cases live = inr (inr refl)

promoted_ref-FixedBy :
    (body : EnvironmentPromotionCreate) (actor_id : String) (a : EnvironmentAction) (s s' : Session)
    (ref : String × String)
    → body.target_environment ≢ live
    → promoted_ref body actor_id a s ≡ (ok ref, s')
    → FixedBy body ref.0 ref.1
unfolding promoted_ref FixedBy ◌>>=◌ reject_if or_reject reject audit
promoted_ref-FixedBy body actor_id a s s' ref alive h =
    elim (target_cases body.target_environment) [
      | inl e ↦ ground (arith, ap (λ (t : PromotionTarget). str_eq (target_text t) "pre") e)
      | inr (inl e) ↦ ground (arith, ap (λ (t : PromotionTarget). str_eq (target_text t) "pre") e)
      | inr (inr e) ↦ absurd (alive e)
    ]

promote_from-ok :
    (body : EnvironmentPromotionCreate) (actor_id : String) (source : EnvironmentDeployment)
    (a : EnvironmentAction) (s s' : Session) (r : EnvironmentResult)
    → body.target_environment ≢ live
    → promote_from body actor_id source a s ≡ (ok r, s')
    → (ref : String × String) × (now : ℕ) × (id : ℕ) × FixedBy body ref.0 ref.1
      × (r.deployment
          ≡ new_deployment (promotion_draft body actor_id source a.approval_actor_id ref) now id)
unfolding promote_from
promote_from-ok body actor_id source a s s' r alive h =
    let (ref, fixed, h1) = bind-ok (promoted_ref body actor_id a) _ s s' r h in
    let h2 = gets-bind-ok _ _ _ s' r h1 in
    let (now, id, made) = replace-finish-ok _ _ a actor_id _ _ _ s' r h2 in
    (
      ref,
      now,
      id,
      promoted_ref-FixedBy body actor_id a s _ ref alive (pair_of _ (ok ref) fixed),
      made,
    )

not_live :
    (body : EnvironmentPromotionCreate)
    → body.target_environment ≡ live
    → str_eq (target_text body.target_environment) "live" ≢ false
not_live body e off = cc (ap (λ t. str_eq (target_text t) "live") e)

Promoted-row :
    (settings : Settings) (body : EnvironmentPromotionCreate) (actor_id : String) (t : Deployments)
    (source : EnvironmentDeployment) (a : EnvironmentAction)
    (evidence : EnvironmentApprovalEvidence) (ref : String × String) (now id : ℕ)
    (e : EnvironmentDeployment)
    → Table.get body.source_deployment_id t ≡ some source
    → source.environment ≡ expected_source (target_text body.target_environment)
    → status_is_active source.status ≡ true
    → str_in body.repository settings.environment_allowed_repositories ≡ true
    → body.repository ≡ source.repository
    → body.resolved_sha ≡ source.resolved_sha
    → a.approval_actor_id ≡ some evidence.actor_id
    → Independent settings actor_id evidence.actor_id
        (str_eq (target_text body.target_environment) "prod-sim")
    → FixedBy body ref.0 ref.1
    → e ≡ new_deployment (promotion_draft body actor_id source a.approval_actor_id ref) now id
    → Promoted settings body actor_id t e
unfolding new_deployment promotion_draft
Promoted-row settings body actor_id t source a evidence ref now id e at below on may same sha kept
      independent fixed made =
    subst (Promoted settings body actor_id t) (sym made) (record {
      source = source;
      stored = at;
      active = on;
      below = below;
      allowed = may;
      same_repository = same;
      same_sha = sha;
      approver = evidence.actor_id;
      named = kept;
      independent = independent;
      environment = refl;
      fixed = fixed;
    })

promote_new-Promoted :
    (settings : Settings) (body : EnvironmentPromotionCreate) (actor_id : String)
    (a : EnvironmentAction) (s s' : Session) (r : EnvironmentResult)
    → promote_new settings body actor_id a s ≡ (ok r, s')
    → Promoted settings body actor_id s.current.environment_deployments r.deployment
unfolding promote_new
promote_new-Promoted settings body actor_id a s s' r h =
    let (alive, h1) = reject_if-bind-ok a actor_id _ _ _ _ s s' r h in
    let h2 = gets-bind-ok _ _ s s' r h1 in
    let (source, found, h3) = or_reject-bind-ok a actor_id _ _ _ _ s s' r h2 in
    let (same, h4) = reject_if-bind-ok a actor_id _ _ _ _ s s' r h3 in
    let (approved, granted, h5) = or_reject-bind-ok a actor_id _ _ _ _ s s' r h4 in
    let (done, saved, h6) = bind-ok (save_action approved) _ s s' r h5 in
    let from = promotion_source_of (target_text body.target_environment) _ source found in
    let refs = ref_differs-false settings body source same in
    let (evidence, given, kept, independent) =
      approve-Independent settings a approved actor_id body.approval _ granted in
    let (ref, now, id, fixed, made) =
      promote_from-ok body actor_id source approved _ s' r (λ e. not_live body e alive) h6 in
    Promoted-row settings body actor_id s.current.environment_deployments source approved evidence
      ref now id r.deployment from.0 from.1 from.2 refs.0 refs.1 refs.2 kept independent fixed made

-- A promotion that goes through, and is no replay, takes an active deployment of dev to pre or of pre
-- to prod-sim, with its repository, which is an allowed one, and its commit; it carries the approval
-- of another actor who may decide approvals and who, for prod-sim, is an owner or an operator; pre
-- is fixed by the commit and prod-sim by a safe tag.
pub promote-Promoted :
    (lib : TextLibrary) (settings : Settings) (body : EnvironmentPromotionCreate)
    (actor_id key : String) (s s' : Session) (r : EnvironmentResult)
    → promote_environment lib settings body actor_id key s ≡ (ok r, s')
    → r.replayed ≡ false
    → Promoted settings body actor_id s.current.environment_deployments r.deployment
unfolding promote_environment
promote-Promoted lib settings body actor_id key s s' r h fresh =
    let b = Begun-ok lib _ _ s s' r h fresh in
    subst (λ t. Promoted settings body actor_id t r.deployment) b.untouched
      (promote_new-Promoted settings body actor_id b.action b.opened s' r b.went)
