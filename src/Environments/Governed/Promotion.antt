-- ===== src/Environments/Governed/Promotion.antt =====
-- The invariant of the deployments through a promotion.
use hermes_orchestrator.Prelude.{
  ◌≡◌, refl, true, false, String, Option, none, some, arith, str_in, eq_iff,
}
use hermes_orchestrator.Models.Settings.{Settings, TextLibrary}
use hermes_orchestrator.Models.Environments.{
  EnvironmentDeployment, EnvironmentAction, EnvironmentPromotionCreate, target_text,
  status_is_active, PromotionTarget, pre, prod_sim, live,
}
use hermes_orchestrator.Store.Table
use hermes_orchestrator.Store.Exec.{Db, EnvironmentDeployment-Keyed}
use hermes_orchestrator.Store.Keeps.{Keeps}
use hermes_orchestrator.Store.Triple.{
  Triple, Any, Triple-bind, Triple-gets-bind, Triple-from, Triple-pure, Triple-if,
  Triple-modify-bind, Keeps-Triple,
}
use hermes_orchestrator.Environments.Install.{new_deployment, finish}
use hermes_orchestrator.Environments.Promote.{
  promotion_source, ref_differs, promoted_ref, promotion_draft, promote_from, promote_new,
  promote_environment, expected_source,
}
use hermes_orchestrator.Environments.Slots.{Deployments}
use hermes_orchestrator.Environments.Lineage.{Traced}
use hermes_orchestrator.Environments.Governed.{
  Governed, begun-Governed, finish-Governed, save_action-Governed, Triple-reject_if-bind,
  Triple-or_reject-bind,
}
use hermes_orchestrator.Environments.Governed.Insertion.{
  Stored, read-Stored, no_port, not_env, install-Governed,
}

promoted_ref-Governed :
    {P : Db → Type 0} (body : EnvironmentPromotionCreate) (actor_id : String)
    (a : EnvironmentAction)
    → Triple Governed P (promoted_ref body actor_id a) (λ ref d. P d)
unfolding promoted_ref
promoted_ref-Governed body actor_id a =
    search (Triple-if, Triple-or_reject-bind, Triple-reject_if-bind, Triple-pure) depth 10

-- A row that names a stored row of the environment below with the same repository and commit.
source-Traced :
    (target : PromotionTarget) (t : Deployments) (x source : EnvironmentDeployment)
    → x.environment ≡ target_text target
    → source.environment ≡ expected_source (target_text target)
    → x.repository ≡ source.repository
    → x.resolved_sha ≡ source.resolved_sha
    → x.source_deployment_id ≡ some source.id
    → Table.get source.id t ≡ some source
    → Traced t x
source-Traced pre t x source env from repository sha named stored = record {
  pre = λ on. record { source_id = source.id; named = named; taken = ground (arith, stored) };
  prod_sim = λ on. absurd (not_env x "pre" "prod-sim" env refl on);
}
source-Traced prod_sim t x source env from repository sha named stored = record {
  pre = λ on. absurd (not_env x "prod-sim" "pre" env refl on);
  prod_sim = λ on. record { source_id = source.id; named = named; taken = ground (arith, stored) };
}
source-Traced live t x source env from repository sha named stored = record {
  pre = λ on. absurd (not_env x "live" "pre" env refl on);
  prod_sim = λ on. absurd (not_env x "live" "prod-sim" env refl on);
}

promote_from-Governed :
    (body : EnvironmentPromotionCreate) (actor_id : String) (source : EnvironmentDeployment)
    (a : EnvironmentAction)
    → source.environment ≡ expected_source (target_text body.target_environment)
    → body.repository ≡ source.repository
    → body.resolved_sha ≡ source.resolved_sha
    → Triple Governed (Stored source) (promote_from body actor_id source a) Any
unfolding promote_from new_deployment
promote_from-Governed body actor_id source a from repository sha =
    Triple-bind _ _ (promoted_ref-Governed body actor_id a) (λ ref.
      install-Governed _ "shared"
        (λ prev. promotion_draft body actor_id source a.approval_actor_id ref)
        (λ prev e. finish a actor_id "environment.promoted" prev _ e)
        (λ prev d stored h. record {
          current = h;
          port_free = λ now id port on. absurd (no_port _ port refl on);
          traced = λ now id.
              source-Traced body.target_environment d.environment_deployments _ source refl from
                repository sha refl stored;
        })
        (λ prev e. finish-Governed a actor_id "environment.promoted" prev _ e))

-- What the tests of a promotion say of its source.
pub promotion_source_of :
    (target : String) (row : Option EnvironmentDeployment) (source : EnvironmentDeployment)
    → promotion_source target row ≡ some source
    → (row ≡ some source)
      × (source.environment ≡ expected_source target)
      × (status_is_active source.status ≡ true)
unfolding promotion_source
promotion_source_of target none source h = absurd (ground arith)
promotion_source_of target (some d) source h =
    ground (arith, eq_iff d.environment (expected_source target))

pub ref_differs-false :
    (settings : Settings) (body : EnvironmentPromotionCreate) (source : EnvironmentDeployment)
    → ref_differs settings body source ≡ false
    → (str_in body.repository settings.environment_allowed_repositories ≡ true)
      × (body.repository ≡ source.repository)
      × (body.resolved_sha ≡ source.resolved_sha)
unfolding ref_differs
ref_differs-false settings body source h =
    ground (
      arith,
      eq_iff body.repository source.repository,
      eq_iff body.resolved_sha source.resolved_sha,
    )

promote_new-Governed :
    (settings : Settings) (body : EnvironmentPromotionCreate) (actor_id : String)
    (a : EnvironmentAction)
    → Triple Governed (λ d. Unit) (promote_new settings body actor_id a) Any
unfolding promote_new
promote_new-Governed settings body actor_id a = Triple-reject_if-bind a actor_id _ _ _ _ (λ alive.
    Triple-gets-bind _ _ (λ row. Triple-or_reject-bind a actor_id _ _ _ _ (λ source found.
      Triple-reject_if-bind a actor_id _ _ _ _ (λ same.
        Triple-or_reject-bind a actor_id _ _ _ _ (λ approved ok.
          let of_source =
            promotion_source_of (target_text body.target_environment) row source found in
          let refs = ref_differs-false settings body source same in
          Triple-from _ _
            (λ d h p. read-Stored body.source_deployment_id row source d p.1 of_source.0)
            (Triple-modify-bind _ _ (save_action-Governed approved) (λ d p. p)
              (promote_from-Governed body actor_id source approved of_source.1 refs.1 refs.2)))))))

pub promote-Governed :
    (lib : TextLibrary) (settings : Settings) (body : EnvironmentPromotionCreate)
    (actor_id key : String)
    → Keeps Governed (promote_environment lib settings body actor_id key)
unfolding promote_environment
promote-Governed lib settings body actor_id key =
    begun-Governed lib _ _ (λ a. Keeps-Triple _ _ (promote_new-Governed settings body actor_id a))
