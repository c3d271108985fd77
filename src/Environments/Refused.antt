-- ===== src/Environments/Refused.antt =====
-- Requests that fail: what they leave of the deployments.
use hermes_orchestrator.Prelude.{ℕ, ◌≡◌, refl, Bool, true, false, String, Option, none, some, arith}
use hermes_orchestrator.Models.Json.{Fields}
use hermes_orchestrator.Models.Rows.{AuditEvent}
use hermes_orchestrator.Models.Environments.{
  EnvironmentDeployment, EnvironmentAction, EnvironmentPromotionCreate, EnvironmentRollbackCreate,
}
use hermes_orchestrator.Models.Settings.{Settings, TextLibrary}
use hermes_orchestrator.Store.Exec.{
  Db, Session, Exception, Result, ok, err, Exec, request, add_audit, save_action, ◌>>=◌,
  lift_result,
}
use hermes_orchestrator.Store.Keeps.{
  Keeps-gets, Keeps, Keeps-modify, Keeps-add_row, Keeps-bind, Keeps-pure, Keeps-if, keeps_rules,
}
use hermes_orchestrator.Environments.Action.{
  EnvironmentResult, Command, begin_action, replay_or_begin, replay_action, insert_action,
  unless_replayed, reject, reject_if, or_reject, audit,
}
use hermes_orchestrator.Environments.Install.{Draft, replace, finish, add_deployment}
use hermes_orchestrator.Environments.Promote.{
  promoted_ref, promote_from, promote_new, promote_environment,
}
use hermes_orchestrator.Environments.Rollback.{rollback_to, rollback_new, rollback_environment}
use hermes_orchestrator.Environments.Deploy.{expire_new, end_local, expire_local}
use hermes_orchestrator.Environments.Service.{
  EnvironmentRequest, deploy, expire, promote, rollback, handle,
}
use hermes_orchestrator.Environments.Slots.{Deployments}

abbrev pub is_deploy : EnvironmentRequest → Bool
is_deploy (deploy body) = true
is_deploy (expire id) = false
is_deploy (promote body) = false
is_deploy (rollback environment body) = false

-- The deployments are those of the table.
abbrev Are : Deployments → Db → Type 0
Are t d = d.environment_deployments ≡ t

-- Where the action raises, an invariant that held before holds of what is stored.
record Refuses {A : Type 0} (P : Db → Type 0) (m : Exec A) : Type 0 where
  at :
      (s : Session) (e : Exception)
      → P s.current
      → P s.committed
      → (m s).0 ≡ err e
      → P (m s).1.committed

Refuses-Keeps : {A : Type 0} {P : Db → Type 0} (m : Exec A) → Keeps P m → Refuses P m
Refuses-Keeps m k = record { at = λ s e h c raised. (k.at s h c).1 }

module _ {A B : Type 0} {P : Db → Type 0} where
  lift_result-Refuses :
      (r : Result A) (f : A → Exec B) (s : Session) (e : Exception)
      → ((a : A) → Refuses P (f a))
      → P s.current
      → P s.committed
      → (lift_result r f s).0 ≡ err e
      → P (lift_result r f s).1.committed
  lift_result-Refuses (ok a) f s e kf h c raised = (kf a).at s e h c raised
  lift_result-Refuses (err x) f s e kf h c raised = c

  Refuses-bind :
      (m : Exec A) (f : A → Exec B) → Keeps P m → ((a : A) → Refuses P (f a)) → Refuses P (m >>= f)
  unfolding ◌>>=◌
  Refuses-bind m f km kf = record {
    at = λ s e h c raised.
        let (h', c') = km.at s h c in lift_result-Refuses (m s).0 f (m s).1 e kf h' c' raised;
  }

-- The end of an operation does not raise.
replace-finish-Refuses :
    (P : Db → Type 0) (prev : Option EnvironmentDeployment) (draft : Draft) (a : EnvironmentAction)
    (actor_id event_type : String) (payload : Fields)
    → Refuses P (replace prev draft >>= λ e. finish a actor_id event_type prev payload e)
unfolding replace add_deployment finish ◌>>=◌
replace-finish-Refuses P none draft a actor_id event_type payload = record {
  at = λ s e h c raised. absurd (ground arith);
}
replace-finish-Refuses P (some x) draft a actor_id event_type payload = record {
  at = λ s e h c raised. absurd (ground arith);
}

module _ (t : Deployments) where
  add_audit-Are : (e : AuditEvent) → Keeps (Are t) (add_audit e)
  add_audit-Are e = Keeps-modify _ (λ d h. h)

  save_action-Are : (a : EnvironmentAction) → Keeps (Are t) (save_action a)
  save_action-Are a = Keeps-modify _ (λ d h. h)

  audit-Are :
      (actor_id event_type : String) (id : ℕ) (payload : Fields)
      → Keeps (Are t) (audit actor_id event_type id payload)
  unfolding audit
  audit-Are actor_id event_type id payload = add_audit-Are _

  reject-Are :
      {A : Type 0} (a : EnvironmentAction) (actor_id code : String) (status : ℕ)
      → Keeps (Are t) (reject {A = A} a actor_id code status)
  unfolding reject
  reject-Are a actor_id code status = search (keeps_rules, audit-Are, save_action-Are)

  reject_if-Are :
      (c : Bool) (a : EnvironmentAction) (actor_id code : String) (status : ℕ)
      → Keeps (Are t) (reject_if c a actor_id code status)
  unfolding reject_if
  reject_if-Are true a actor_id code status = reject-Are a actor_id code status
  reject_if-Are false a actor_id code status = Keeps-pure tt

  or_reject-Are :
      {A : Type 0} (o : Option A) (a : EnvironmentAction) (actor_id code : String) (status : ℕ)
      → Keeps (Are t) (or_reject o a actor_id code status)
  unfolding or_reject
  or_reject-Are none a actor_id code status = reject-Are a actor_id code status
  or_reject-Are (some x) a actor_id code status = Keeps-pure x

  replay_or_begin-Are :
      (request_hash : String) (c : Command) (o : Option EnvironmentAction)
      → Keeps (Are t) (replay_or_begin request_hash c o)
  unfolding replay_or_begin insert_action replay_action
  replay_or_begin-Are request_hash c none =
      Keeps-bind _ _ (Keeps-add_row _ (λ d h. h)) (λ id. Keeps-pure _)
  replay_or_begin-Are request_hash c (some a) = search keeps_rules depth 14

  begin_action-Are : (lib : TextLibrary) (c : Command) → Keeps (Are t) (begin_action lib c)
  unfolding begin_action
  begin_action-Are lib c = search (keeps_rules, replay_or_begin-Are)

  unless_replayed-Refuses :
      (rest : EnvironmentAction → Exec EnvironmentResult)
      → ((a : EnvironmentAction) → Refuses (Are t) (rest a))
      → (p : EnvironmentAction × Option EnvironmentResult)
      → Refuses (Are t) (unless_replayed rest p)
  unfolding unless_replayed
  unless_replayed-Refuses rest kr (a, none) = kr a
  unless_replayed-Refuses rest kr (a, some result) = Refuses-Keeps _ (Keeps-pure result)

  begun-Refuses :
      (lib : TextLibrary) (c : Command) (rest : EnvironmentAction → Exec EnvironmentResult)
      → ((a : EnvironmentAction) → Refuses (Are t) (rest a))
      → Refuses (Are t) (begin_action lib c >>= unless_replayed rest)
  begun-Refuses lib c rest kr =
      Refuses-bind _ _ (begin_action-Are lib c) (unless_replayed-Refuses rest kr)

  promoted_ref-Are :
      (body : EnvironmentPromotionCreate) (actor_id : String) (a : EnvironmentAction)
      → Keeps (Are t) (promoted_ref body actor_id a)
  unfolding promoted_ref
  promoted_ref-Are body actor_id a =
      search (Keeps-if, Keeps-bind, Keeps-pure, reject_if-Are, or_reject-Are) depth 10

  promote_new-Refuses :
      (settings : Settings) (body : EnvironmentPromotionCreate) (actor_id : String)
      (a : EnvironmentAction)
      → Refuses (Are t) (promote_new settings body actor_id a)
  unfolding promote_new promote_from
  promote_new-Refuses settings body actor_id a =
      search
        (
          Refuses-bind, reject_if-Are, or_reject-Are, save_action-Are, Keeps-gets, promoted_ref-Are,
          replace-finish-Refuses,
        )
        depth 14

  rollback_new-Refuses :
      (settings : Settings) (environment : String) (body : EnvironmentRollbackCreate)
      (actor_id : String) (a : EnvironmentAction)
      → Refuses (Are t) (rollback_new settings environment body actor_id a)
  unfolding rollback_new rollback_to
  rollback_new-Refuses settings environment body actor_id a =
      search
        (
          Refuses-bind, reject_if-Are, or_reject-Are, save_action-Are, Keeps-gets,
          replace-finish-Refuses,
        )
        depth 14

  end_local-Refuses :
      (actor_id : String) (a : EnvironmentAction) (e : EnvironmentDeployment)
      → Refuses (Are t) (end_local actor_id a e)
  unfolding end_local audit ◌>>=◌
  end_local-Refuses actor_id a e = record { at = λ s x h c raised. absurd (ground arith) }

  expire_new-Refuses :
      (id : ℕ) (actor_id : String) (a : EnvironmentAction)
      → Refuses (Are t) (expire_new id actor_id a)
  unfolding expire_new
  expire_new-Refuses id actor_id a =
      search (Refuses-bind, or_reject-Are, Keeps-gets, end_local-Refuses) depth 14

  handle-Refuses :
      (lib : TextLibrary) (settings : Settings) (actor_id key : String) (q : EnvironmentRequest)
      → is_deploy q ≡ false
      → Refuses (Are t) (handle lib settings actor_id key q)
  unfolding handle promote_environment rollback_environment expire_local
  handle-Refuses lib settings actor_id key (deploy body) other = cc
  handle-Refuses lib settings actor_id key (expire id) other =
      begun-Refuses lib _ _ (expire_new-Refuses id actor_id)
  handle-Refuses lib settings actor_id key (promote body) other =
      begun-Refuses lib _ _ (promote_new-Refuses settings body actor_id)
  handle-Refuses lib settings actor_id key (rollback environment body) other =
      begun-Refuses lib _ _ (rollback_new-Refuses settings environment body actor_id)

-- A promotion, a rollback or the end of a local deployment that fails leaves every stored deployment
-- as it was.
pub handle_error :
    (lib : TextLibrary) (settings : Settings) (actor_id key : String) (q : EnvironmentRequest)
    (now : ℕ) (d : Db) (e : Exception)
    → is_deploy q ≡ false
    → (request (handle lib settings actor_id key q) now d).0 ≡ err e
    → (request (handle lib settings actor_id key q) now d).1.environment_deployments
      ≡ d.environment_deployments
unfolding request
handle_error lib settings actor_id key q now d e other raised =
    (handle-Refuses d.environment_deployments lib settings actor_id key q other).at
      (record { current = d; committed = d; clock = now }) e refl refl raised
