-- ===== src/Environments/Ports.antt =====
-- The search for a port of `deploy_environment`: the least port of the pool that is not in use.
use hermes_orchestrator.Prelude.{
  ◌==◌, ==→≡, ℕ, zero, suc, ◌+◌, ◌≤◌, ◌<◌, ◌≡◌, refl, true, false, none, some, [], ◌∷◌, arith,
  count, Bool-cases, inl, inr,
}
use hermes_orchestrator.Models.Settings.{Settings}
use hermes_orchestrator.Store.Exec.{Db}
use hermes_orchestrator.Environments.Slots.{Deployments}
use hermes_orchestrator.Environments.Deploy.{holds_port, port_is_used, first_free, free_port}

pub port_unused-count :
    (port : ℕ) (t : Deployments) → port_is_used port t ≡ false → count (holds_port port) t ≡ 0
unfolding port_is_used
port_unused-count port [] h = refl
port_unused-count port (d ∷ ds) h = ground (arith, port_unused-count port ds)

port_used-count :
    (port : ℕ) (t : Deployments) → port_is_used port t ≡ true → 0 < count (holds_port port) t
unfolding port_is_used
port_used-count port [] h = absurd (ground arith)
port_used-count port (d ∷ ds) h = ground (arith, port_used-count port ds)

-- The port that was found is unused and in the range, and every port before it is used.
pub record LeastFree (t : Deployments) (first last port : ℕ) : Type 0 where
  pub from : first ≤ port
  pub to : port < last
  pub unused : count (holds_port port) t ≡ 0
  pub least : (p : ℕ) → first ≤ p → p < port → 0 < count (holds_port p) t

first_free-LeastFree :
    (t : Deployments) (n first port : ℕ)
    → first_free t n first ≡ some port
    → LeastFree t first (first + n) port
unfolding first_free
first_free-LeastFree t zero first port h = absurd (ground arith)
first_free-LeastFree t (suc n) first port h = elim (Bool-cases (port_is_used first t)) [
  | inl used ↦
      let later = first_free-LeastFree t n (suc first) port (ground arith) in
      record {
        from = omega (arith, later.from);
        to = omega (arith, later.to);
        unused = later.unused;
        least = λ p above below. elim (Bool-cases (p == first)) [
          | inl here ↦ rw (==→≡ p first here) (port_used-count first t used)
          | inr beyond ↦ later.least p (ground arith) below
        ];
      }
  | inr free ↦
      let here : first ≡ port = ground arith in
      record {
        from = omega (arith, here);
        to = omega (arith, here);
        unused = port_unused-count port t (rw (← here) free);
        least = λ p above below. absurd (omega (arith, here));
      }
]

first_free-none :
    (t : Deployments) (n first : ℕ)
    → first_free t n first ≡ none
    → (port : ℕ) → first ≤ port
    → port < first + n
    → 0 < count (holds_port port) t
unfolding first_free
first_free-none t zero first h port above below = absurd (omega arith)
first_free-none t (suc n) first h port above below = elim (Bool-cases (port_is_used first t)) [
  | inl used ↦ elim (Bool-cases (port == first)) [
    | inl here ↦ rw (==→≡ port first here) (port_used-count first t used)
    | inr beyond ↦ first_free-none t n (suc first) (ground arith) port (ground arith) (omega arith)
  ]
  | inr free ↦ absurd (ground arith)
]

-- The search returns a port exactly when some port of the pool is not held by an active local
-- deployment, and then it is the least of them.
pub free_port-LeastFree :
    (settings : Settings) (d : Db)
    → ((port : ℕ)
        → free_port settings d ≡ some port
        → LeastFree d.environment_deployments settings.environment_local_port_start
            (suc settings.environment_local_port_end)
            port)
      × (free_port settings d ≡ none
          → (port : ℕ) → settings.environment_local_port_start ≤ port
          → port ≤ settings.environment_local_port_end
          → 0 < count (holds_port port) d.environment_deployments)
unfolding free_port
free_port-LeastFree settings d = (
  (λ port found.
      let least = first_free-LeastFree d.environment_deployments _ _ port found in
      record {
        from = least.from;
        to = omega (arith, least.from, least.to);
        unused = least.unused;
        least = least.least;
      }),
  (λ missing port above below.
      first_free-none d.environment_deployments _ _ missing port above (omega arith)),
)
