-- ===== src/Environments/Governed/Insertion.antt =====
-- The invariant through the insertion of a deployment in the place of the current one.
use hermes_orchestrator.Prelude.{
  subst, ◌≢◌, ◌∙◌, str_eq, ℕ, suc, ◌≡◌, refl, sym, true, false, String, Option, none, some, [], ◌∷◌,
  ◌++◌, arith, count,
}
use hermes_orchestrator.Models.Environments.{EnvironmentDeployment}
use hermes_orchestrator.Store.Exec.{Db, Exec, gets, ◌>>=◌, EnvironmentDeployment-Keyed}
use hermes_orchestrator.Store.Table
use hermes_orchestrator.Store.Table.{Distinct}
use hermes_orchestrator.Store.Fresh.{FreshIds, append-FreshIds, put-FreshIds}
use hermes_orchestrator.Store.Keeps.{Keeps}
use hermes_orchestrator.Store.Triple.{
  Triple, Any, Triple-Keeps, Triple-bind, Triple-gets-bind, Triple-from,
}
use hermes_orchestrator.Environments.Action.{EnvironmentResult}
use hermes_orchestrator.Environments.Install.{
  Draft, new_deployment, current_of, add_deployment, replace,
}
use hermes_orchestrator.Environments.Deploy.{holds_port, is_active_local}
use hermes_orchestrator.Environments.Slots.{
  Deployments, superseded, superseded_row, replaced-OneActive, replaced-PortsOnce, current_of-row,
}
use hermes_orchestrator.Environments.Lineage.{Traced, Listed, replaced-Lineage}
use hermes_orchestrator.Environments.Governed.{Well, Governed}

-- The new row may be inserted in place of the current one.
pub record Ready (prev : Option EnvironmentDeployment) (draft : Draft) (d : Db) : Type 0 where
  pub current : prev ≡ current_of draft.environment draft.instance_key d
  pub port_free :
      (now id port : ℕ)
      → holds_port port (new_deployment draft now id) ≡ true
      → count (holds_port port) d.environment_deployments ≡ 0
  pub traced : (now id : ℕ) → Traced d.environment_deployments (new_deployment draft now id)

superseded-FreshIds :
    (prev : Option EnvironmentDeployment) (n : ℕ) (t : Deployments)
    → FreshIds n t
    → FreshIds n (superseded prev t)
superseded-FreshIds none n t h = h
superseded-FreshIds (some e) n t h = put-FreshIds (superseded_row e) n t h

current-Listed :
    (draft : Draft) (d : Db) (prev : Option EnvironmentDeployment)
    → Distinct d.environment_deployments
    → prev ≡ current_of draft.environment draft.instance_key d
    → Listed prev d.environment_deployments
current-Listed draft d none distinct h = tt
current-Listed draft d (some e) distinct h =
    (current_of-row draft.environment draft.instance_key d e distinct (sym h)).0

new_deployment_id : (draft : Draft) (now id : ℕ) → (new_deployment draft now id).id ≡ id
unfolding new_deployment
new_deployment_id draft now id = refl

-- The new row stands in the slot of its draft.
current-new :
    (draft : Draft) (d : Db) (now : ℕ) (prev : Option EnvironmentDeployment)
    → prev ≡ current_of draft.environment draft.instance_key d
    → prev
      ≡ current_of
          (new_deployment draft now d.next_id).environment
          (new_deployment draft now d.next_id).instance_key
          d
unfolding new_deployment
current-new draft d now prev h = h

replaced-Well :
    (prev : Option EnvironmentDeployment) (draft : Draft) (d : Db) (now : ℕ)
    → Governed d
    → Ready prev draft d
    → Well
        (suc d.next_id)
        (superseded prev d.environment_deployments ++ new_deployment draft now d.next_id ∷ [])
replaced-Well prev draft d now h r =
    let x = new_deployment draft now d.next_id in
    let listed = current-Listed draft d prev h.fresh.0 r.current in
    record {
      fresh =
          append-FreshIds x d.next_id _ (new_deployment_id draft now d.next_id)
            (superseded-FreshIds prev d.next_id d.environment_deployments h.fresh);
      one = replaced-OneActive d h.fresh.0 x prev (current-new draft d now prev r.current) h.one;
      ports =
          replaced-PortsOnce d h.fresh.0 x prev (current-new draft d now prev r.current)
            (r.port_free now d.next_id) h.ports;
      lineage =
          replaced-Lineage prev x d.environment_deployments listed (r.traced now d.next_id)
            h.lineage;
    }

pub replace-Governed :
    (prev : Option EnvironmentDeployment) (draft : Draft)
    → Triple Governed (Ready prev draft) (replace prev draft) Any
unfolding replace add_deployment ◌>>=◌
replace-Governed none draft = record {
  keeps = λ s h k r. (replaced-Well none draft s.current s.clock h r, k);
  returns = λ s h k r a e. tt;
}
replace-Governed (some x) draft = record {
  keeps = λ s h k r. (replaced-Well (some x) draft s.current s.clock h r, k);
  returns = λ s h k r a e. tt;
}

-- A row of the table.
abbrev pub Stored : EnvironmentDeployment → Db → Type 0
Stored e d = Table.get e.id d.environment_deployments ≡ some e

pub read-Stored :
    (id : ℕ) (row : Option EnvironmentDeployment) (e : EnvironmentDeployment) (d : Db)
    → row ≡ Table.get id d.environment_deployments
    → row ≡ some e
    → Stored e d
read-Stored id row e d read found =
    let here = sym read ∙ found in
    subst (λ i. Table.get i d.environment_deployments ≡ some e)
      (sym (Table.get-key id d.environment_deployments e here)) here

-- A row without a port holds none.
pub no_port :
    (x : EnvironmentDeployment) (port : ℕ) → x.allocated_port ≡ none → holds_port port x ≢ true
unfolding holds_port is_active_local
no_port x port h on = ground arith

pub not_env :
    (x : EnvironmentDeployment) (a b : String)
    → x.environment ≡ a
    → str_eq a b ≡ false
    → str_eq x.environment b ≢ true
not_env x a b e off on = cc

-- The end of an operation, from a state where the new row may be inserted.
pub install-Governed :
    {P : Db → Type 0} (environment instance_key : String)
    (draft : Option EnvironmentDeployment → Draft)
    (rest : Option EnvironmentDeployment → EnvironmentDeployment → Exec EnvironmentResult)
    → ((prev : Option EnvironmentDeployment) (d : Db)
        → P d
        → prev ≡ current_of environment instance_key d
        → Ready prev (draft prev) d)
    → ((prev : Option EnvironmentDeployment) (e : EnvironmentDeployment)
        → Keeps Governed (rest prev e))
    → Triple Governed P
        (gets (current_of environment instance_key) >>= λ prev.
          replace prev (draft prev) >>= λ e. rest prev e)
        Any
install-Governed environment instance_key draft rest ready kr = Triple-gets-bind _ _ (λ prev.
    Triple-from _ _ (λ d h p. ready prev d p.0 p.1)
      (Triple-bind _ _ (replace-Governed prev (draft prev)) (λ e. Triple-Keeps _ (kr prev e))))
