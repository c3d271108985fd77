-- ===== src/Environments/Slots.antt =====
-- The slots of the deployments: the environment with the instance, and the port of a local one.
use hermes_orchestrator.Prelude.{
  ℕ, ◌+◌, ◌≤◌, ◌≡◌, refl, sym, Bool, true, false, String, Option, none, some, List, [], ◌∷◌, ◌++◌,
  arith, eq_iff, filter, count, count-append, to_nat, inl, inr, Option-cases, Bool-cases, ltb, ap,
  All, subst,
}
use hermes_orchestrator.Models.Environments.{EnvironmentDeployment, DeploymentStatus}
use hermes_orchestrator.Store.Table
use hermes_orchestrator.Store.Table.{Distinct}
use hermes_orchestrator.Store.Exec.{Db, EnvironmentDeployment-Keyed}
use hermes_orchestrator.Environments.Install.{is_current, newest, current_of}
use hermes_orchestrator.Environments.Deploy.{holds_port, is_active_local}

abbrev pub Deployments : Type 0
Deployments = List EnvironmentDeployment

-- A deployment as it is when another one takes its place.
abbrev pub superseded_row : EnvironmentDeployment → EnvironmentDeployment
superseded_row e = record e { status = DeploymentStatus.superseded }

All-newest :
    (P : EnvironmentDeployment → Type 0) (t : Deployments) (e : EnvironmentDeployment)
    → All P t
    → newest t ≡ some e
    → P e
unfolding newest
All-newest P [] e h n = absurd (ground arith)
All-newest P (d ∷ ds) e h n = elim (Option-cases (newest ds)) [
  | inl none_behind ↦ subst P (ground arith) h.0
  | inr (x, found) ↦ elim (Bool-cases (ltb x.created_at d.created_at)) [
    | inl later ↦ subst P (ground arith) h.0
    | inr sooner ↦ All-newest P ds e h.1 (ground arith)
  ]
]

newest-none : (t : Deployments) → newest t ≡ none → t ≡ []
unfolding newest
newest-none [] h = refl
newest-none (d ∷ ds) h = elim (Option-cases (newest ds)) [
  | inl e ↦ absurd (ground arith)
  | inr (x, e) ↦ absurd (ground arith)
]

count_of_filter-nil :
    (p : EnvironmentDeployment → Bool) (t : Deployments) → filter p t ≡ [] → count p t ≡ 0
count_of_filter-nil p [] h = refl
count_of_filter-nil p (d ∷ ds) h = ground (arith, count_of_filter-nil p ds)

module _ (environment instance_key : String) (d : Db) where
  pub current_of-none :
      current_of environment instance_key d ≡ none
      → count (is_current environment instance_key) d.environment_deployments ≡ 0
  unfolding current_of
  current_of-none h = count_of_filter-nil _ d.environment_deployments (newest-none _ h)

  -- The current deployment is a row of the table, active in its slot.
  pub current_of-row :
      (e : EnvironmentDeployment)
      → Distinct d.environment_deployments
      → current_of environment instance_key d ≡ some e
      → (Table.get e.id d.environment_deployments ≡ some e)
        × (is_current environment instance_key e ≡ true)
  unfolding current_of
  current_of-row e distinct h =
      All-newest _ _ e
        (Table.All-filter (is_current environment instance_key) d.environment_deployments distinct)
        h

-- What `replace` does to the table before the new row comes.
abbrev pub superseded : Option EnvironmentDeployment → Deployments → Deployments
superseded none t = t
superseded (some e) t = Table.put (superseded_row e) t

-- At most one active deployment in each environment and instance.
abbrev pub OneActive : Deployments → Type 0
OneActive t =
    (environment instance_key : String) → count (is_current environment instance_key) t ≤ 1

-- At most one active local deployment on each port.
abbrev pub PortsOnce : Deployments → Type 0
PortsOnce t = (port : ℕ) → count (holds_port port) t ≤ 1

-- A row that turns inactive leaves what is counted of active rows at most as it was.
pub count-put_inactive :
    (p : EnvironmentDeployment → Bool) (x e : EnvironmentDeployment) (t : Deployments)
    → Table.get x.id t ≡ some e
    → p x ≡ false
    → count p (Table.put x t) + to_nat (p e) ≡ count p t
count-put_inactive p x e t h off = omega (arith, Table.count-put p x e t h, ap to_nat off)

is_current-superseded :
    (environment instance_key : String) (e : EnvironmentDeployment)
    → is_current environment instance_key (superseded_row e) ≡ false
unfolding is_current
is_current-superseded environment instance_key e = ground arith

holds_port-superseded :
    (port : ℕ) (e : EnvironmentDeployment) → holds_port port (superseded_row e) ≡ false
unfolding holds_port is_active_local
holds_port-superseded port e = ground arith

-- The slot of a new row: its environment and instance, once its test holds.
is_current-slot :
    (environment instance_key : String) (x : EnvironmentDeployment)
    → is_current environment instance_key x ≡ true
    → (x.environment ≡ environment) × (x.instance_key ≡ instance_key)
unfolding is_current
is_current-slot environment instance_key x h =
    ground (arith, eq_iff x.environment environment, eq_iff x.instance_key instance_key)

module _ (d : Db) (distinct : Distinct d.environment_deployments) where
  -- Superseding the current deployment of a slot empties it, and fills no other.
  superseded_empties :
      (environment instance_key : String) (prev : Option EnvironmentDeployment)
      → OneActive d.environment_deployments
      → prev ≡ current_of environment instance_key d
      → count (is_current environment instance_key) (superseded prev d.environment_deployments) ≡ 0
  superseded_empties environment instance_key none one h =
      current_of-none environment instance_key d (sym h)
  superseded_empties environment instance_key (some e) one h =
      let (found, on) = current_of-row environment instance_key d e distinct (sym h) in
      omega (
        arith,
        one environment instance_key,
        ap to_nat on,
        count-put_inactive (is_current environment instance_key) (superseded_row e) e
            d.environment_deployments found (is_current-superseded environment instance_key e),
      )

  superseded_le :
      (p : EnvironmentDeployment → Bool) (environment instance_key : String)
      (prev : Option EnvironmentDeployment)
      → ((e : EnvironmentDeployment) → p (superseded_row e) ≡ false)
      → prev ≡ current_of environment instance_key d
      → count p (superseded prev d.environment_deployments) ≤ count p d.environment_deployments
  superseded_le p environment instance_key none off h = omega arith
  superseded_le p environment instance_key (some e) off h =
      let (found, on) = current_of-row environment instance_key d e distinct (sym h) in
      omega
        (arith, count-put_inactive p (superseded_row e) e d.environment_deployments found (off e))

  module _ (x : EnvironmentDeployment) (prev : Option EnvironmentDeployment)
      (h : prev ≡ current_of x.environment x.instance_key d) where
    pub replaced-OneActive :
        OneActive d.environment_deployments
        → OneActive (superseded prev d.environment_deployments ++ x ∷ [])
    replaced-OneActive one environment instance_key =
        let counted =
          count-append (is_current environment instance_key)
            (superseded prev d.environment_deployments) (x ∷ []) in
        let le =
          superseded_le (is_current environment instance_key) x.environment x.instance_key prev
            (is_current-superseded environment instance_key) h in
        elim (Bool-cases (is_current environment instance_key x)) [
          | inl on ↦
              let (same, same') = is_current-slot environment instance_key x on in
              let zero_here : count (is_current environment instance_key)
                    (superseded prev d.environment_deployments)
                  ≡ 0 =
                rw (← same, ← same') (superseded_empties x.environment x.instance_key prev one h) in
              omega (arith, counted, zero_here, ap to_nat on)
          | inr off ↦ omega (arith, counted, le, one environment instance_key, ap to_nat off)
        ]

    pub replaced-PortsOnce :
        ((port : ℕ)
          → holds_port port x ≡ true
          → count (holds_port port) d.environment_deployments ≡ 0)
        → PortsOnce d.environment_deployments
        → PortsOnce (superseded prev d.environment_deployments ++ x ∷ [])
    replaced-PortsOnce free once port =
        let counted =
          count-append (holds_port port) (superseded prev d.environment_deployments) (x ∷ []) in
        let le =
          superseded_le (holds_port port) x.environment x.instance_key prev
            (holds_port-superseded port) h in
        elim (Bool-cases (holds_port port x)) [
          | inl on ↦ omega (arith, counted, le, free port on, ap to_nat on)
          | inr off ↦ omega (arith, counted, le, once port, ap to_nat off)
        ]
