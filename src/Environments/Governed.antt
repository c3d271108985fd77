-- ===== src/Environments/Governed.antt =====
-- The invariant of the deployments and how the shared steps of the actions keep it.
pub mod Insertion
pub mod Promotion
pub mod Reversal
pub mod Placement
use hermes_orchestrator.Prelude.{
  subst, ◌≢◌, ◌∙◌, str_eq, ℕ, suc, ◌≡◌, refl, sym, Bool, true, false, String, Option, none, some,
  List, [], ◌∷◌, ◌++◌, arith, count, ltb,
}
use hermes_orchestrator.Models.Json.{Fields}
use hermes_orchestrator.Models.Rows.{AuditEvent}
use hermes_orchestrator.Models.Settings.{TextLibrary}
use hermes_orchestrator.Models.Environments.{EnvironmentDeployment, EnvironmentAction}
use hermes_orchestrator.Store.Exec.{
  Db, Exec, pure, gets, add_audit, save_action, add_row, ◌>>=◌, EnvironmentDeployment-Keyed,
}
use hermes_orchestrator.Store.Table
use hermes_orchestrator.Store.Table.{Distinct}
use hermes_orchestrator.Store.Fresh.{FreshIds, append-FreshIds, put-FreshIds, more-FreshIds}
use hermes_orchestrator.Store.Keeps.{
  Keeps, Keeps-bind, Keeps-pure, Keeps-modify, Keeps-add_row, keeps_rules,
}
use hermes_orchestrator.Store.Triple.{
  Triple, Any, Triple-Keeps, Triple-bind, Triple-gets-bind, Triple-from, Triple-pure,
}
use hermes_orchestrator.Environments.Action.{
  EnvironmentResult, Command, insert_action, replay_action, replay_or_begin, begin_action,
  unless_replayed, reject, reject_if, or_reject, audit,
}
use hermes_orchestrator.Environments.Install.{
  Draft, new_deployment, current_of, add_deployment, replace, finish,
}
use hermes_orchestrator.Environments.Deploy.{holds_port, is_active_local}
use hermes_orchestrator.Environments.Slots.{
  Deployments, OneActive, PortsOnce, superseded, superseded_row, replaced-OneActive,
  replaced-PortsOnce, current_of-row,
}
use hermes_orchestrator.Environments.Lineage.{Lineage, Traced, Listed, replaced-Lineage}

pub record Well (next_id : ℕ) (t : Deployments) : Type 0 where
  pub fresh : FreshIds next_id t
  pub one : OneActive t
  pub ports : PortsOnce t
  pub lineage : Lineage t

-- Identifiers are distinct and the next one is new, each slot and each port is taken once, and what
-- runs in pre or in the simulated production has its source.
abbrev pub Governed : Db → Type 0
Governed d = Well d.next_id d.environment_deployments

pub add_audit-Governed : (e : AuditEvent) → Keeps Governed (add_audit e)
add_audit-Governed e = Keeps-modify _ (λ d h. h)

pub save_action-Governed : (a : EnvironmentAction) → Keeps Governed (save_action a)
save_action-Governed a = Keeps-modify _ (λ d h. h)

pub audit-Governed :
    (actor_id event_type : String) (id : ℕ) (payload : Fields)
    → Keeps Governed (audit actor_id event_type id payload)
unfolding audit
audit-Governed actor_id event_type id payload = add_audit-Governed _

ruleset steps = (keeps_rules, audit-Governed, save_action-Governed)

pub reject-Governed :
    {A : Type 0} (a : EnvironmentAction) (actor_id code : String) (status : ℕ)
    → Keeps Governed (reject {A = A} a actor_id code status)
unfolding reject
reject-Governed a actor_id code status = search steps

-- An identifier may be given away.
more-Well : (n : ℕ) (t : Deployments) → Well n t → Well (suc n) t
more-Well n t h = record {
  fresh = more-FreshIds n (suc n) t (omega arith) h.fresh;
  one = h.one;
  ports = h.ports;
  lineage = h.lineage;
}

insert_action-Governed :
    (request_hash : String) (c : Command) → Keeps Governed (insert_action request_hash c)
unfolding insert_action
insert_action-Governed request_hash c =
    Keeps-bind _ _ (Keeps-add_row _ (λ d h. more-Well d.next_id d.environment_deployments h))
      (λ id. Keeps-pure _)

replay_action-Governed :
    (request_hash : String) (c : Command) (a : EnvironmentAction)
    → Keeps Governed (replay_action request_hash c a)
unfolding replay_action
replay_action-Governed request_hash c a = search steps depth 14

replay_or_begin-Governed :
    (request_hash : String) (c : Command) (o : Option EnvironmentAction)
    → Keeps Governed (replay_or_begin request_hash c o)
unfolding replay_or_begin
replay_or_begin-Governed request_hash c none = insert_action-Governed request_hash c
replay_or_begin-Governed request_hash c (some a) = replay_action-Governed request_hash c a

unless_replayed-Governed :
    (rest : EnvironmentAction → Exec EnvironmentResult)
    → ((a : EnvironmentAction) → Keeps Governed (rest a))
    → (p : EnvironmentAction × Option EnvironmentResult) → Keeps Governed (unless_replayed rest p)
unfolding unless_replayed
unless_replayed-Governed rest kr (a, none) = kr a
unless_replayed-Governed rest kr (a, some result) = Keeps-pure result

-- An action keeps the invariant if what follows a new record does.
pub begun-Governed :
    (lib : TextLibrary) (c : Command) (rest : EnvironmentAction → Exec EnvironmentResult)
    → ((a : EnvironmentAction) → Keeps Governed (rest a))
    → Keeps Governed (begin_action lib c >>= unless_replayed rest)
unfolding begin_action
begun-Governed lib c rest kr =
    Keeps-bind _ _ (search (keeps_rules, replay_or_begin-Governed))
      (unless_replayed-Governed rest kr)

pub finish-Governed :
    (a : EnvironmentAction) (actor_id event_type : String) (prev : Option EnvironmentDeployment)
    (payload : Fields) (e : EnvironmentDeployment)
    → Keeps Governed (finish a actor_id event_type prev payload e)
unfolding finish
finish-Governed a actor_id event_type prev payload e = search steps

module _ {B : Type 0} {P : Db → Type 0} {R : B → Db → Type 0} (a : EnvironmentAction)
    (actor_id code : String) (status : ℕ) where
  pub Triple-reject_if-bind :
      (c : Bool) (f : Unit → Exec B)
      → (c ≡ false → Triple Governed P (f tt) R)
      → Triple Governed P (reject_if c a actor_id code status >>= f) R
  unfolding ◌>>=◌ reject_if reject audit
  Triple-reject_if-bind false f kf = kf refl
  Triple-reject_if-bind true f kf = record {
    keeps = λ s h k p. (reject-Governed {A = Unit} a actor_id code status).at s h k;
    returns = λ s h k p b e. absurd (ground arith);
  }

  pub Triple-or_reject-bind :
      {A : Type 0} (o : Option A) (f : A → Exec B)
      → ((x : A) → o ≡ some x → Triple Governed P (f x) R)
      → Triple Governed P (or_reject o a actor_id code status >>= f) R
  unfolding ◌>>=◌ or_reject reject audit
  Triple-or_reject-bind (some x) f kf = kf x refl
  Triple-or_reject-bind {A} none f kf = record {
    keeps = λ s h k p. (reject-Governed {A = A} a actor_id code status).at s h k;
    returns = λ s h k p b e. absurd (ground arith);
  }
