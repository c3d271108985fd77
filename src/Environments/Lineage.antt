-- ===== src/Environments/Lineage.antt =====
-- Where the deployments of pre and of the simulated production come from: each names a deployment of
-- the environment before it with the same repository and the same commit.
use hermes_orchestrator.Prelude.{
  ◌==◌, ap, ==→≡, ℕ, ◌≡◌, refl, sym, ◌∙◌, subst, true, String, Option, none, some, [], ◌∷◌, ◌++◌,
  arith, All, All-map, All-map_of, All-append, str_eq, Bool-cases, Option-cases, inl, inr,
}
use hermes_orchestrator.Models.Environments.{EnvironmentDeployment}
use hermes_orchestrator.Store.Table
use hermes_orchestrator.Store.Exec.{EnvironmentDeployment-Keyed}
use hermes_orchestrator.Environments.Deploy.{expire_if_stale}
use hermes_orchestrator.Environments.Slots.{Deployments, superseded, superseded_row}
use hermes_orchestrator.Environments.Stale.{expired_rows, get-expired}

-- What a deployment runs and where.
abbrev pub Ref : Type 0
Ref = String × String × String

abbrev pub ref_of : EnvironmentDeployment → Ref
ref_of e = (e.environment, e.repository, e.resolved_sha)

abbrev opt_ref : Option EnvironmentDeployment → Option Ref
opt_ref none = none
opt_ref (some e) = some (ref_of e)

abbrev pub ref_at : Deployments → ℕ → Option Ref
ref_at t i = opt_ref (Table.get i t)

-- A deployment with a source in the environment below, of the same repository and commit.
pub record Sourced (t : Deployments) (below : String) (e : EnvironmentDeployment) : Type 0 where
  pub source_id : ℕ
  pub named : e.source_deployment_id ≡ some source_id
  pub taken : ref_at t source_id ≡ some (below, e.repository, e.resolved_sha)

pub record Traced (t : Deployments) (e : EnvironmentDeployment) : Type 0 where
  pub pre : str_eq e.environment "pre" ≡ true → Sourced t "dev" e
  pub prod_sim : str_eq e.environment "prod-sim" ≡ true → Sourced t "pre" e

abbrev pub Lineage : Deployments → Type 0
Lineage t = All (Traced t) t

module _ (t t' : Deployments)
    (later : (i : ℕ) (r : Ref) → ref_at t i ≡ some r → ref_at t' i ≡ some r) where
  Sourced-later :
      (below : String) (e : EnvironmentDeployment) → Sourced t below e → Sourced t' below e
  Sourced-later below e s = record {
    source_id = s.source_id;
    named = s.named;
    taken = later s.source_id _ s.taken;
  }

  pub Traced-later : (e : EnvironmentDeployment) → Traced t e → Traced t' e
  Traced-later e h = record {
    pre = λ on. Sourced-later "dev" e (h.pre on);
    prod_sim = λ on. Sourced-later "pre" e (h.prod_sim on);
  }

-- Only the status of a row is another one.
pub Traced-superseded :
    (t : Deployments) (e : EnvironmentDeployment) → Traced t e → Traced t (superseded_row e)
Traced-superseded t e h = record {
  pre = λ on.
      let s = h.pre on in record { source_id = s.source_id; named = s.named; taken = s.taken };
  prod_sim = λ on.
      let s = h.prod_sim on in record { source_id = s.source_id; named = s.named; taken = s.taken };
}

ref_at-put :
    (x e : EnvironmentDeployment) (t : Deployments) (i : ℕ)
    → Table.get x.id t ≡ some e
    → ref_of x ≡ ref_of e
    → ref_at (Table.put x t) i ≡ ref_at t i
ref_at-put x e t i found same = elim (Bool-cases (x.id == i)) [
  | inl here ↦
      subst (λ j. ref_at (Table.put x t) j ≡ ref_at t j) (==→≡ x.id i here)
        (ap opt_ref (Table.get-put_self x e t found) ∙ ap some same ∙ sym (ap opt_ref found))
  | inr other ↦ ap opt_ref (Table.get-put_ne x i t (ground arith))
]

pub ref_at-append :
    (x : EnvironmentDeployment) (t : Deployments) (i : ℕ) (r : Ref)
    → ref_at t i ≡ some r
    → ref_at (t ++ x ∷ []) i ≡ some r
ref_at-append x t i r h = ground (arith, Table.get-append i t x)

-- The row that is superseded, if there is one, is in the table.
abbrev pub Listed : Option EnvironmentDeployment → Deployments → Type 0
Listed none t = Unit
Listed (some e) t = Table.get e.id t ≡ some e

ref_at-superseded :
    (prev : Option EnvironmentDeployment) (t : Deployments)
    → Listed prev t
    → (i : ℕ) (r : Ref) → ref_at t i ≡ some r
    → ref_at (superseded prev t) i ≡ some r
ref_at-superseded none t l i r h = h
ref_at-superseded (some e) t l i r h = ref_at-put (superseded_row e) e t i l refl ∙ h

superseded-Traced :
    (prev : Option EnvironmentDeployment) (t : Deployments)
    → Listed prev t
    → Lineage t
    → All (Traced t) (superseded prev t)
superseded-Traced none t l h = h
superseded-Traced (some e) t l h =
    Table.All-put (Traced t) (superseded_row e) t
      (Traced-superseded t e (Table.All-get (Traced t) e.id t e h l)) h

pub replaced-Lineage :
    (prev : Option EnvironmentDeployment) (x : EnvironmentDeployment) (t : Deployments)
    → Listed prev t
    → Traced t x
    → Lineage t
    → Lineage (superseded prev t ++ x ∷ [])
replaced-Lineage prev x t l tx h =
    let later : (i : ℕ) (r : Ref)
        → ref_at t i ≡ some r
        → ref_at (superseded prev t ++ x ∷ []) i ≡ some r =
      λ i r e. ref_at-append x (superseded prev t) i r (ref_at-superseded prev t l i r e) in
    All-append _ (superseded prev t) (x ∷ [])
      (All-map _ _ _ (Traced-later t _ later) (superseded-Traced prev t l h))
      (Traced-later t _ later x tx, tt)

expire_if_stale-ref :
    (now : ℕ) (e : EnvironmentDeployment) → ref_of (expire_if_stale now e) ≡ ref_of e
unfolding expire_if_stale
expire_if_stale-ref now e = ground arith

expire_if_stale-source :
    (now : ℕ) (e : EnvironmentDeployment)
    → (expire_if_stale now e).source_deployment_id ≡ e.source_deployment_id
unfolding expire_if_stale
expire_if_stale-source now e = ground arith

Sourced-same :
    (t : Deployments) (below : String) (e e' : EnvironmentDeployment)
    → ref_of e' ≡ ref_of e
    → e'.source_deployment_id ≡ e.source_deployment_id
    → Sourced t below e
    → Sourced t below e'
Sourced-same t below e e' same source s = record {
  source_id = s.source_id;
  named = source ∙ s.named;
  taken = ground (arith, s.taken);
}

-- A row with the same reference and source is traced as the other.
pub Traced-same :
    (t : Deployments) (e e' : EnvironmentDeployment)
    → ref_of e' ≡ ref_of e
    → e'.source_deployment_id ≡ e.source_deployment_id
    → Traced t e
    → Traced t e'
Traced-same t e e' same source h =
    let kept : e'.environment ≡ e.environment = ground arith in
    record {
      pre = λ on. Sourced-same t "dev" e e' same source (h.pre (rw (← kept) on));
      prod_sim = λ on. Sourced-same t "pre" e e' same source (h.prod_sim (rw (← kept) on));
    }

ref_at-expired :
    (now : ℕ) (t : Deployments) (i : ℕ) (r : Ref)
    → ref_at t i ≡ some r
    → ref_at (expired_rows now t) i ≡ some r
ref_at-expired now t i r h = elim (Option-cases (Table.get i t)) [
  | inl missing ↦ absurd (ground arith)
  | inr (e, found) ↦ ground (arith, get-expired now i t, expire_if_stale-ref now e)
]

pub expired-Lineage : (now : ℕ) (t : Deployments) → Lineage t → Lineage (expired_rows now t)
expired-Lineage now t h =
    All-map _ _ _ (Traced-later t (expired_rows now t) (ref_at-expired now t)) (
      All-map_of (Traced t) (expire_if_stale now) t (
        All-map _ _ t
          (λ e.
            Traced-same t e (expire_if_stale now e) (expire_if_stale-ref now e)
              (expire_if_stale-source now e))
          h))

pub put-Lineage :
    (x e : EnvironmentDeployment) (t : Deployments)
    → Table.get x.id t ≡ some e
    → ref_of x ≡ ref_of e
    → x.source_deployment_id ≡ e.source_deployment_id
    → Lineage t
    → Lineage (Table.put x t)
put-Lineage x e t found same source h =
    All-map _ _ _ (Traced-later t _ (λ i r here. ref_at-put x e t i found same ∙ here)) (
      Table.All-put (Traced t) x t
        (Traced-same t e x same source (Table.All-get (Traced t) x.id t e h found)) h)
