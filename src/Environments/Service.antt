-- ===== src/Environments/Service.antt =====
-- The operations of environment_services.py as requests to one store (the routes of
-- environment_api.py), and the states that a sequence of requests reaches.
use hermes_orchestrator.Prelude.{ℕ, String}
use hermes_orchestrator.Models.Environments.{
  EnvironmentDeployCreate, EnvironmentPromotionCreate, EnvironmentRollbackCreate,
}
use hermes_orchestrator.Models.Settings.{Settings, TextLibrary}
use hermes_orchestrator.Store.Exec.{Db, Exec, request}
use hermes_orchestrator.Store.Keeps.{Keeps, Keeps-request}
use hermes_orchestrator.Environments.Action.{EnvironmentResult}
use hermes_orchestrator.Environments.Deploy.{deploy_environment, expire_local}
use hermes_orchestrator.Environments.Promote.{promote_environment}
use hermes_orchestrator.Environments.Rollback.{rollback_environment}
use hermes_orchestrator.Environments.Governed.{Governed}
use hermes_orchestrator.Environments.Governed.Placement.{deploy-Governed, expire-Governed}
use hermes_orchestrator.Environments.Governed.Promotion.{promote-Governed}
use hermes_orchestrator.Environments.Governed.Reversal.{rollback-Governed}

-- A request by an actor under an idempotency key.
pub data EnvironmentRequest : Type 0 where
  deploy : EnvironmentDeployCreate → EnvironmentRequest
  expire : ℕ → EnvironmentRequest
  promote : EnvironmentPromotionCreate → EnvironmentRequest
  rollback : String → EnvironmentRollbackCreate → EnvironmentRequest

-- The operation that a request runs.
unfoldable pub handle :
    TextLibrary → Settings → String → String → EnvironmentRequest → Exec EnvironmentResult
handle lib settings actor_id key (deploy body) = deploy_environment lib settings body actor_id key
handle lib settings actor_id key (expire id) = expire_local lib id actor_id key
handle lib settings actor_id key (promote body) = promote_environment lib settings body actor_id key
handle lib settings actor_id key (rollback environment body) =
    rollback_environment lib settings environment body actor_id key

-- The stored states that requests reach, each in a session of its own.
pub data Serves (lib : TextLibrary) (settings : Settings) (d : Db) : Db → Type 0 where
  start : Serves lib settings d d
  serve :
      (d' : Db) (actor_id key : String) (q : EnvironmentRequest) (now : ℕ)
      → Serves lib settings d d'
      → Serves lib settings d (request (handle lib settings actor_id key q) now d').1

handle-Governed :
    (lib : TextLibrary) (settings : Settings) (actor_id key : String) (q : EnvironmentRequest)
    → Keeps Governed (handle lib settings actor_id key q)
unfolding handle
handle-Governed lib settings actor_id key (deploy body) =
    deploy-Governed lib settings body actor_id key
handle-Governed lib settings actor_id key (expire id) = expire-Governed lib id actor_id key
handle-Governed lib settings actor_id key (promote body) =
    promote-Governed lib settings body actor_id key
handle-Governed lib settings actor_id key (rollback environment body) =
    rollback-Governed lib settings environment body actor_id key

-- Whatever requests reach from a governed state is governed: the identifiers of the deployments are
-- distinct and below the next one, no environment and instance has two active deployments, no two
-- active local deployments hold one port, and each deployment of pre or prod-sim names as its source
-- a stored deployment of dev or pre, respectively, with the same repository and the same commit.
pub Serves-Governed :
    (lib : TextLibrary) (settings : Settings) (d d' : Db)
    → Governed d
    → Serves lib settings d d'
    → Governed d'
Serves-Governed lib settings d d' h start = h
Serves-Governed lib settings d d' h (serve d'' actor_id key q now earlier) =
    Keeps-request (handle lib settings actor_id key q) now d''
      (handle-Governed lib settings actor_id key q) (Serves-Governed lib settings d d'' h earlier)
