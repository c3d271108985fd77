-- ===== src/Environments/Stale.antt =====
-- The local deployments whose time is over, marked as expired all at once.
use hermes_orchestrator.Prelude.{
  ℕ, ◌≤◌, ◌<◌, ◌≡◌, refl, Bool, true, String, none, some, [], ◌∷◌, arith, count, map, All,
}
use hermes_orchestrator.Models.Environments.{EnvironmentDeployment}
use hermes_orchestrator.Store.Table
use hermes_orchestrator.Store.Table.{Distinct}
use hermes_orchestrator.Store.Fresh.{FreshIds}
use hermes_orchestrator.Store.Exec.{EnvironmentDeployment-Keyed}
use hermes_orchestrator.Environments.Install.{is_current}
use hermes_orchestrator.Environments.Deploy.{expire_if_stale, holds_port, is_active_local}
use hermes_orchestrator.Environments.Slots.{Deployments, OneActive, PortsOnce}

expire_if_stale_id : (now : ℕ) (e : EnvironmentDeployment) → (expire_if_stale now e).id ≡ e.id
unfolding expire_if_stale
expire_if_stale_id now e = ground arith

module _ (now : ℕ) where
  abbrev pub expired_rows : Deployments → Deployments
  expired_rows t = map (expire_if_stale now) t

  pub get-expired :
      (i : ℕ) (t : Deployments)
      → Table.get i (expired_rows t)
        ≡ elim (Table.get i t) [ none ↦ none | some e ↦ some (expire_if_stale now e) ]
  unfolding Table.get
  get-expired i [] = refl
  get-expired i (e ∷ es) = ground (arith, get-expired i es, expire_if_stale_id now e)

  expired-Distinct : (t : Deployments) → Distinct t → Distinct (expired_rows t)
  expired-Distinct [] d = tt
  expired-Distinct (e ∷ es) d =
      (ground (arith, get-expired e.id es, d.0, expire_if_stale_id now e), expired-Distinct es d.1)

  expired_below :
      (n : ℕ) (t : Deployments)
      → All (λ (e : EnvironmentDeployment). e.id < n) t
      → All (λ (e : EnvironmentDeployment). e.id < n) (expired_rows t)
  expired_below n [] h = tt
  expired_below n (e ∷ es) h =
      (omega (arith, h.0, expire_if_stale_id now e), expired_below n es h.1)

  pub expired-FreshIds : (n : ℕ) (t : Deployments) → FreshIds n t → FreshIds n (expired_rows t)
  expired-FreshIds n t h = (expired-Distinct t h.0, expired_below n t h.1)

  -- What is counted of rows that no expiry makes true is at most what it was.
  expired_fewer :
      (p : EnvironmentDeployment → Bool)
      → ((e : EnvironmentDeployment) → p (expire_if_stale now e) ≡ true → p e ≡ true)
      → (t : Deployments) → count p (expired_rows t) ≤ count p t
  expired_fewer p h [] = omega arith
  expired_fewer p h (e ∷ es) = ground (arith, expired_fewer p h es, h e)

  is_current-expired :
      (environment instance_key : String) (e : EnvironmentDeployment)
      → is_current environment instance_key (expire_if_stale now e) ≡ true
      → is_current environment instance_key e ≡ true
  unfolding is_current expire_if_stale
  is_current-expired environment instance_key e h = ground arith

  holds_port-expired :
      (port : ℕ) (e : EnvironmentDeployment)
      → holds_port port (expire_if_stale now e) ≡ true
      → holds_port port e ≡ true
  unfolding holds_port expire_if_stale is_active_local
  holds_port-expired port e h = ground arith

  pub expired-OneActive : (t : Deployments) → OneActive t → OneActive (expired_rows t)
  expired-OneActive t h environment instance_key = omega (
    arith,
    expired_fewer (is_current environment instance_key)
        (is_current-expired environment instance_key) t,
    h environment instance_key,
  )

  pub expired-PortsOnce : (t : Deployments) → PortsOnce t → PortsOnce (expired_rows t)
  expired-PortsOnce t h port =
      omega (arith, expired_fewer (holds_port port) (holds_port-expired port) t, h port)
