-- ===== src/Environments/Governed/Reversal.antt =====
-- The invariant of the deployments through a rollback.
use hermes_orchestrator.Prelude.{◌≡◌, refl, sym, ◌∙◌, String, Option, none, some, arith, eq_iff}
use hermes_orchestrator.Models.Settings.{Settings, TextLibrary}
use hermes_orchestrator.Models.Environments.{
  EnvironmentDeployment, EnvironmentAction, EnvironmentRollbackCreate,
}
use hermes_orchestrator.Store.Table
use hermes_orchestrator.Store.Exec.{EnvironmentDeployment-Keyed}
use hermes_orchestrator.Store.Keeps.{Keeps}
use hermes_orchestrator.Store.Triple.{
  Triple, Any, Triple-Keeps, Triple-bind, Triple-gets-bind, Triple-from, Triple-modify-bind,
  Keeps-Triple,
}
use hermes_orchestrator.Environments.Install.{new_deployment, current_of}
use hermes_orchestrator.Environments.Rollback.{
  rollback_target, rollback_to, rollback_new, rollback_environment,
}
use hermes_orchestrator.Environments.Lineage.{Traced-same, Traced}
use hermes_orchestrator.Environments.Governed.{
  Governed, begun-Governed, finish-Governed, save_action-Governed, Triple-reject_if-bind,
  Triple-or_reject-bind,
}
use hermes_orchestrator.Environments.Governed.Insertion.{
  Stored, read-Stored, no_port, replace-Governed,
}

pub rollback_target_of :
    (environment : String) (row : Option EnvironmentDeployment) (target : EnvironmentDeployment)
    → rollback_target environment row ≡ some target
    → (row ≡ some target) × (target.environment ≡ environment)
unfolding rollback_target
rollback_target_of environment none target h = absurd (ground arith)
rollback_target_of environment (some d) target h = ground (arith, eq_iff d.environment environment)

rollback_to-Governed :
    (environment actor_id : String) (target current : EnvironmentDeployment) (a : EnvironmentAction)
    → target.environment ≡ environment
    → Triple Governed
        (λ d. Stored target d × (some current ≡ current_of environment "shared" d))
        (rollback_to environment actor_id target current a)
        Any
unfolding rollback_to new_deployment current_of
rollback_to-Governed environment actor_id target current a same =
    Triple-modify-bind _ _ (save_action-Governed a) (λ d p. p)
      (Triple-bind _ _
        (Triple-from _ _
          (λ d h p. record {
            current = p.1;
            port_free = λ now id port on. absurd (no_port _ port refl on);
            traced = λ now id.
                Traced-same d.environment_deployments target _
                  (λ i. (sym same i, target.repository, target.resolved_sha)) refl
                  (Table.All-get (Traced d.environment_deployments) target.id
                    d.environment_deployments target h.lineage p.0);
          })
          (replace-Governed (some current) _))
        (λ e.
          Triple-Keeps _ (finish-Governed a actor_id "environment.rolled_back" (some current) _ e)))

rollback_new-Governed :
    (settings : Settings) (environment : String) (body : EnvironmentRollbackCreate)
    (actor_id : String) (a : EnvironmentAction)
    → Triple Governed (λ d. Unit) (rollback_new settings environment body actor_id a) Any
unfolding rollback_new
rollback_new-Governed settings environment body actor_id a =
    Triple-reject_if-bind a actor_id _ _ _ _ (λ known. Triple-gets-bind _ _ (λ row.
      Triple-gets-bind _ _ (λ running. Triple-or_reject-bind a actor_id _ _ _ _ (λ target found.
        Triple-or_reject-bind a actor_id _ _ _ _ (λ current here.
          Triple-or_reject-bind a actor_id _ _ _ _ (λ approved ok.
            let of_target = rollback_target_of environment row target found in
            Triple-from _ _
              (λ d h p. (
                read-Stored body.target_deployment_id row target d p.0.1 of_target.0,
                sym here ∙ p.1,
              ))
              (rollback_to-Governed environment actor_id target current approved of_target.1)))))))

pub rollback-Governed :
    (lib : TextLibrary) (settings : Settings) (environment : String)
    (body : EnvironmentRollbackCreate) (actor_id key : String)
    → Keeps Governed (rollback_environment lib settings environment body actor_id key)
unfolding rollback_environment
rollback-Governed lib settings environment body actor_id key =
    begun-Governed lib _ _
      (λ a. Keeps-Triple _ _ (rollback_new-Governed settings environment body actor_id a))
