-- ===== src/Environments/Governed/Placement.antt =====
-- The invariant of the deployments through a deployment and the end of a local one.
use hermes_orchestrator.Prelude.{
  ℕ, ◌≡◌, refl, sym, ◌∙◌, true, false, String, Option, none, some, arith, count,
}
use hermes_orchestrator.Models.Settings.{Settings, TextLibrary}
use hermes_orchestrator.Models.Environments.{
  DeploymentStatus, EnvironmentDeployment, EnvironmentAction, EnvironmentDeployCreate,
  DeployEnvironment, deploy_text, local, dev,
}
use hermes_orchestrator.Store.Table
use hermes_orchestrator.Store.Exec.{Db, EnvironmentDeployment-Keyed}
use hermes_orchestrator.Store.Fresh.{put-FreshIds}
use hermes_orchestrator.Store.Keeps.{Keeps, Keeps-modify, keeps_rules, Keeps-effective_time}
use hermes_orchestrator.Store.Triple.{
  Triple-modify, Triple, Any, Triple-Keeps, Triple-bind, Triple-gets-bind, Triple-pure, Triple-if,
  Keeps-Triple,
}
use hermes_orchestrator.Environments.Install.{is_current, new_deployment, finish}
use hermes_orchestrator.Environments.Deploy.{
  local_or_none, Place, holds_port, is_active_local, expire_stale, local_place, shared_place,
  place_of, deploy_draft, deploy_new, deploy_environment, expire_new, end_local, expire_local,
}
use hermes_orchestrator.Environments.Slots.{count-put_inactive, Deployments}
use hermes_orchestrator.Environments.Stale.{expired-FreshIds, expired-OneActive, expired-PortsOnce}
use hermes_orchestrator.Environments.Lineage.{put-Lineage, Traced, expired-Lineage}
use hermes_orchestrator.Environments.Ports.{free_port-LeastFree}
use hermes_orchestrator.Environments.Governed.{
  Governed, Well, begun-Governed, finish-Governed, save_action-Governed, audit-Governed,
  Triple-reject_if-bind, Triple-or_reject-bind,
}
use hermes_orchestrator.Environments.Governed.Insertion.{read-Stored, not_env, install-Governed}

-- The place that was chosen: its port is held by no active local deployment.
abbrev PlaceFree : Place → Db → Type 0
PlaceFree place d =
    (port : ℕ)
    → place.allocated_port ≡ some port
    → count (holds_port port) d.environment_deployments ≡ 0

expire_stale-Governed : (now : ℕ) → Keeps Governed (expire_stale now)
unfolding expire_stale
expire_stale-Governed now = Keeps-modify _ (λ d h. record {
  fresh = expired-FreshIds now d.next_id d.environment_deployments h.fresh;
  one = expired-OneActive now d.environment_deployments h.one;
  ports = expired-PortsOnce now d.environment_deployments h.ports;
  lineage = expired-Lineage now d.environment_deployments h.lineage;
})

local_place-Governed :
    (lib : TextLibrary) (settings : Settings) (body : EnvironmentDeployCreate) (actor_id : String)
    (now : ℕ) (a : EnvironmentAction)
    → Triple Governed (λ d. Unit) (local_place lib settings body actor_id now a) PlaceFree
unfolding local_place
local_place-Governed lib settings body actor_id now a = Triple-gets-bind _ _ (λ found.
    Triple-or_reject-bind a actor_id _ _ _ _ (λ task here.
      Triple-reject_if-bind a actor_id _ _ _ _ (λ short.
        Triple-bind _ _ (Triple-Keeps _ (expire_stale-Governed now)) (λ u.
          Triple-gets-bind _ _ (λ running. Triple-reject_if-bind a actor_id _ _ _ _ (λ none_runs.
            Triple-gets-bind _ _ (λ free. Triple-or_reject-bind a actor_id _ _ _ _ (λ port chosen.
              Triple-pure _ _ (λ d p q e.
                ((free_port-LeastFree settings d).0 q (sym p.1 ∙ chosen ∙ e)).unused)))))))))

shared_place-Governed :
    (body : EnvironmentDeployCreate) (actor_id : String) (a : EnvironmentAction)
    → Triple Governed (λ d. Unit) (shared_place body actor_id a) PlaceFree
unfolding shared_place
shared_place-Governed body actor_id a =
    Triple-reject_if-bind a actor_id _ _ _ _
      (λ bare. Triple-pure _ _ (λ d p q e. absurd (ground arith)))

place_of-Governed :
    (lib : TextLibrary) (settings : Settings) (body : EnvironmentDeployCreate) (actor_id : String)
    (now : ℕ) (a : EnvironmentAction)
    → Triple Governed (λ d. Unit) (place_of lib settings body actor_id now a) PlaceFree
unfolding place_of
place_of-Governed lib settings body actor_id now a =
    Triple-if _ _ _ _ (λ other. shared_place-Governed body actor_id a)
      (λ is_local. local_place-Governed lib settings body actor_id now a)

-- A row of the local or of the dev environment needs no source.
free-Traced :
    (b : DeployEnvironment) (t : Deployments) (x : EnvironmentDeployment)
    → x.environment ≡ deploy_text b
    → Traced t x
free-Traced local t x e = record {
  pre = λ on. absurd (not_env x "local" "pre" e refl on);
  prod_sim = λ on. absurd (not_env x "local" "prod-sim" e refl on);
}
free-Traced dev t x e = record {
  pre = λ on. absurd (not_env x "dev" "pre" e refl on);
  prod_sim = λ on. absurd (not_env x "dev" "prod-sim" e refl on);
}

allocated_of_holds :
    (x : EnvironmentDeployment) (port : ℕ) → holds_port port x ≡ true → x.allocated_port ≡ some port
unfolding holds_port is_active_local
allocated_of_holds x port on = ground arith

deploy_new-Governed :
    (lib : TextLibrary) (settings : Settings) (body : EnvironmentDeployCreate) (actor_id : String)
    (a : EnvironmentAction)
    → Triple Governed (λ d. Unit) (deploy_new lib settings body actor_id a) Any
unfolding deploy_new new_deployment deploy_draft
deploy_new-Governed lib settings body actor_id a =
    Triple-reject_if-bind a actor_id _ _ _ _ (λ known.
      Triple-reject_if-bind a actor_id _ _ _ _ (λ may.
        Triple-bind _ _ (Triple-Keeps _ (Keeps-effective_time none)) (λ now.
          Triple-bind _ _ (place_of-Governed lib settings body actor_id now a) (λ place.
            install-Governed _ _ (λ prev. deploy_draft body actor_id place)
              (λ prev e. finish a actor_id "environment.deployed" prev _ e)
              (λ prev d free h. record {
                current = h;
                port_free = λ now id port on. free port (
                    allocated_of_holds (new_deployment (deploy_draft body actor_id place) now id)
                      port on);
                traced = λ now id.
                    free-Traced body.environment _
                      (new_deployment (deploy_draft body actor_id place) now id) refl;
              })
              (λ prev e. finish-Governed a actor_id "environment.deployed" prev _ e)))))

pub deploy-Governed :
    (lib : TextLibrary) (settings : Settings) (body : EnvironmentDeployCreate)
    (actor_id key : String)
    → Keeps Governed (deploy_environment lib settings body actor_id key)
unfolding deploy_environment
deploy-Governed lib settings body actor_id key =
    begun-Governed lib _ _
      (λ a. Keeps-Triple _ _ (deploy_new-Governed lib settings body actor_id a))

local_or_none_of :
    (row : Option EnvironmentDeployment) (e : EnvironmentDeployment)
    → local_or_none row ≡ some e
    → row ≡ some e
unfolding local_or_none
local_or_none_of none e h = absurd (ground arith)
local_or_none_of (some d) e h = ground arith

-- A local deployment that was ended.
abbrev expired_row : EnvironmentDeployment → EnvironmentDeployment
expired_row e = record e { status = DeploymentStatus.expired }

is_current-expired_row :
    (environment instance_key : String) (e : EnvironmentDeployment)
    → is_current environment instance_key (expired_row e) ≡ false
unfolding is_current
is_current-expired_row environment instance_key e = ground arith

holds_port-expired_row :
    (port : ℕ) (e : EnvironmentDeployment) → holds_port port (expired_row e) ≡ false
unfolding holds_port is_active_local
holds_port-expired_row port e = ground arith

expired_row-Well :
    (n : ℕ) (t : Deployments) (e : EnvironmentDeployment)
    → Table.get e.id t ≡ some e
    → Well n t
    → Well n (Table.put (expired_row e) t)
expired_row-Well n t e stored h = record {
  fresh = put-FreshIds _ n t h.fresh;
  one = λ environment instance_key. omega (
    arith,
    h.one environment instance_key,
    count-put_inactive (is_current environment instance_key) (expired_row e) e t stored
        (is_current-expired_row environment instance_key e),
  );
  ports = λ port. omega (
    arith,
    h.ports port,
    count-put_inactive (holds_port port) (expired_row e) e t stored (holds_port-expired_row port e),
  );
  lineage = put-Lineage _ e t stored refl refl h.lineage;
}

expire_new-Governed :
    (id : ℕ) (actor_id : String) (a : EnvironmentAction)
    → Triple Governed (λ d. Unit) (expire_new id actor_id a) Any
unfolding expire_new end_local
expire_new-Governed id actor_id a = Triple-gets-bind _ _ (λ row.
    Triple-or_reject-bind a actor_id _ _ _ _ (λ e found.
      Triple-bind _ _
        (Triple-modify _ (λ d h p.
          expired_row-Well d.next_id d.environment_deployments e
            (read-Stored id row e d p.1 (local_or_none_of row e found)) h))
        (λ u. Triple-Keeps _ (search (keeps_rules, save_action-Governed, audit-Governed)))))

pub expire-Governed :
    (lib : TextLibrary) (id : ℕ) (actor_id key : String)
    → Keeps Governed (expire_local lib id actor_id key)
unfolding expire_local
expire-Governed lib id actor_id key =
    begun-Governed lib _ _ (λ a. Keeps-Triple _ _ (expire_new-Governed id actor_id a))
