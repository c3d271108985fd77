-- ===== src/Store/Inversion.antt =====
-- What a sequence of actions that returned has done: one rule for each kind of first action. With
-- these the later actions stay shut in a proof.
use hermes_orchestrator.Prelude.{
  ◌≡◌, refl, ◌⊎◌, inl, inr, Bool, true, false, Option, none, some, arith,
}
use hermes_orchestrator.Store.Exec.{
  Db, Session, Exception, Result, ok, err, Exec, pure, gets, raise_if, or_raise, ◌>>=◌, lift_result,
}

module _ {A B : Type 0} where
  lift_result-ok :
      (r : Result A) (f : A → Exec B) (s s' : Session) (b : B)
      → lift_result r f s ≡ (ok b, s')
      → (a : A) × (r ≡ ok a) × (f a s ≡ (ok b, s'))
  lift_result-ok (ok a) f s s' b h = (a, refl, h)
  lift_result-ok (err e) f s s' b h = cc

  pub bind-ok :
      (m : Exec A) (f : A → Exec B) (s s' : Session) (b : B)
      → (m >>= f) s ≡ (ok b, s')
      → (a : A) × ((m s).0 ≡ ok a) × (f a (m s).1 ≡ (ok b, s'))
  unfolding ◌>>=◌
  bind-ok m f s s' b h = lift_result-ok (m s).0 f (m s).1 s' b h

  lift_result-err :
      (r : Result A) (f : A → Exec B) (s s' : Session) (e : Exception)
      → lift_result r f s ≡ (err e, s')
      → ((r ≡ err e) × (s ≡ s')) ⊎ ((a : A) × (r ≡ ok a) × (f a s ≡ (err e, s')))
  lift_result-err (ok a) f s s' e h = inr (a, refl, h)
  lift_result-err (err x) f s s' e h = inl (ground arith, ground arith)

  -- A sequence that raised: the first action raised, or it returned and the rest raised.
  pub bind-err :
      (m : Exec A) (f : A → Exec B) (s s' : Session) (e : Exception)
      → (m >>= f) s ≡ (err e, s')
      → (m s ≡ (err e, s')) ⊎ ((a : A) × ((m s).0 ≡ ok a) × (f a (m s).1 ≡ (err e, s')))
  unfolding ◌>>=◌
  bind-err m f s s' e h = elim (lift_result-err (m s).0 f (m s).1 s' e h) [
    | inl (raised, same) ↦ inl (λ i. (raised i, same i))
    | inr later ↦ inr later
  ]

  pub or_raise-bind-ok :
      (o : Option A) (e : Exception) (f : A → Exec B) (s s' : Session) (b : B)
      → (or_raise o e >>= f) s ≡ (ok b, s')
      → (a : A) × (o ≡ some a) × (f a s ≡ (ok b, s'))
  unfolding ◌>>=◌
  or_raise-bind-ok none e f s s' b h = cc
  or_raise-bind-ok (some a) e f s s' b h = (a, refl, h)

module _ {B : Type 0} where
  pub raise_if-bind-ok :
      (c : Bool) (e : Exception) (f : Unit → Exec B) (s s' : Session) (b : B)
      → (raise_if c e >>= f) s ≡ (ok b, s')
      → (c ≡ false) × (f tt s ≡ (ok b, s'))
  unfolding ◌>>=◌
  raise_if-bind-ok true e f s s' b h = cc
  raise_if-bind-ok false e f s s' b h = (refl, h)

pub pure-ok : {A : Type 0} (a x : A) (s s' : Session) → pure a s ≡ (ok x, s') → (x ≡ a) × (s' ≡ s)
unfolding ◌>>=◌
pure-ok a x s s' h = ground arith

-- A read returns, and changes nothing.
pub gets-bind-ok :
    {A B : Type 0} (g : Db → A) (f : A → Exec B) (s s' : Session) (b : B)
    → (gets g >>= f) s ≡ (ok b, s')
    → f (g s.current) s ≡ (ok b, s')
unfolding ◌>>=◌
gets-bind-ok g f s s' b h = h

pub or_raise_state :
    {A : Type 0} (o : Option A) (e : Exception) (s : Session) → (or_raise o e s).1 ≡ s
unfolding ◌>>=◌
or_raise_state none e s = refl
or_raise_state (some a) e s = refl

module _ {A B : Type 0} where
  lift_result-pure_state :
      (r : Result A) (f : A → B) (s : Session) → (lift_result r (λ a. pure (f a)) s).1 ≡ s
  unfolding ◌>>=◌
  lift_result-pure_state (ok a) f s = refl
  lift_result-pure_state (err e) f s = refl

  -- A value that is returned at the end changes nothing.
  pub bind-pure_state :
      (m : Exec A) (f : A → B) (s : Session) → ((m >>= λ a. pure (f a)) s).1 ≡ (m s).1
  unfolding ◌>>=◌
  bind-pure_state m f s = lift_result-pure_state (m s).0 f (m s).1

-- A pair by its first part.
pub pair_of : {A B : Type 0} (x : A × B) (a : A) → x.0 ≡ a → x ≡ (a, x.1)
pair_of x a e = λ i. (e i, x.1)
