-- ===== src/Environments/Inversion.antt =====
-- What an action of environment_services.py that returned has passed, test by test.
use hermes_orchestrator.Prelude.{ℕ, ◌≡◌, refl, Bool, true, false, String, Option, none, some, arith}
use hermes_orchestrator.Models.Environments.{EnvironmentAction}
use hermes_orchestrator.Models.Settings.{TextLibrary}
use hermes_orchestrator.Store.Exec.{Session, Exec, ok, ◌>>=◌}
use hermes_orchestrator.Environments.Action.{
  EnvironmentResult, Command, begin_action, replay_or_begin, replay_action, insert_action,
  new_action, action_by_key, unless_replayed, reject, reject_if, or_reject, audit,
}

module _ {B : Type 0} (a : EnvironmentAction) (actor_id code : String) (status : ℕ) where
  pub reject_if-bind-ok :
      (c : Bool) (f : Unit → Exec B) (s s' : Session) (b : B)
      → (reject_if c a actor_id code status >>= f) s ≡ (ok b, s')
      → (c ≡ false) × (f tt s ≡ (ok b, s'))
  unfolding ◌>>=◌ reject_if reject audit
  reject_if-bind-ok true f s s' b h = absurd (ground arith)
  reject_if-bind-ok false f s s' b h = (refl, h)

  pub or_reject-bind-ok :
      {A : Type 0} (o : Option A) (f : A → Exec B) (s s' : Session) (b : B)
      → (or_reject o a actor_id code status >>= f) s ≡ (ok b, s')
      → (x : A) × (o ≡ some x) × (f x s ≡ (ok b, s'))
  unfolding ◌>>=◌ or_reject reject audit
  or_reject-bind-ok none f s s' b h = absurd (ground arith)
  or_reject-bind-ok (some x) f s s' b h = (x, refl, h)

-- What began: a new record, with the deployments as they were.
pub record Begun (rest : EnvironmentAction → Exec EnvironmentResult) (s s' : Session)
    (r : EnvironmentResult) : Type 0 where
  pub action : EnvironmentAction
  pub opened : Session
  pub untouched : opened.current.environment_deployments ≡ s.current.environment_deployments
  pub went : rest action opened ≡ (ok r, s')

replay_replayed :
    (request_hash : String) (c : Command) (x : EnvironmentAction)
    (rest : EnvironmentAction → Exec EnvironmentResult) (s s' : Session) (r : EnvironmentResult)
    → (replay_action request_hash c x >>= unless_replayed rest) s ≡ (ok r, s')
    → r.replayed ≡ true
unfolding replay_action ◌>>=◌ unless_replayed
replay_replayed request_hash c x rest s s' r h = ground arith

Begun-new :
    (request_hash : String) (c : Command) (o : Option EnvironmentAction)
    (rest : EnvironmentAction → Exec EnvironmentResult) (s s' : Session) (r : EnvironmentResult)
    → (replay_or_begin request_hash c o >>= unless_replayed rest) s ≡ (ok r, s')
    → r.replayed ≡ false
    → Begun rest s s' r
unfolding replay_or_begin insert_action ◌>>=◌ unless_replayed
Begun-new request_hash c none rest s s' r h fresh = record {
  action = new_action request_hash c s.current.next_id;
  opened = (insert_action request_hash c s).1;
  untouched = refl;
  went = h;
}
Begun-new request_hash c (some x) rest s s' r h fresh =
    absurd (cc (replay_replayed request_hash c x rest s s' r h))

-- A result that is no replay comes from a new record.
pub Begun-ok :
    (lib : TextLibrary) (c : Command) (rest : EnvironmentAction → Exec EnvironmentResult)
    (s s' : Session) (r : EnvironmentResult)
    → (begin_action lib c >>= unless_replayed rest) s ≡ (ok r, s')
    → r.replayed ≡ false
    → Begun rest s s' r
unfolding begin_action ◌>>=◌
Begun-ok lib c rest s s' r h fresh =
    Begun-new (lib.digest c.payload) c (action_by_key c.idempotency_key s.current) rest s s' r h
      fresh
