-- ===== src/Store/Triple.antt =====
-- Actions that keep an invariant from the states with a property, and what holds where they return.
use hermes_orchestrator.Prelude.{◌≡◌, refl, Bool, true, false, arith, if◌then◌else◌}
use hermes_orchestrator.Store.Exec.{
  Db, Session, Result, ok, err, Exec, pure, gets, modify, ◌>>=◌, lift_result,
}
use hermes_orchestrator.Store.Keeps.{Keeps}

pub record Triple {A : Type 0} (I P : Db → Type 0) (m : Exec A) (Q : A → Db → Type 0) : Type 0 where
  pub keeps :
      (s : Session)
      → I s.current
      → I s.committed
      → P s.current
      → I (m s).1.current × I (m s).1.committed
  pub returns :
      (s : Session)
      → I s.current
      → I s.committed
      → P s.current
      → (a : A) → (m s).0 ≡ ok a
      → Q a (m s).1.current

-- No more than the invariant is known.
abbrev pub Any : {A : Type 0} → A → Db → Type 0
Any a d = Unit

module _ {A : Type 0} {I P : Db → Type 0} where
  pub Triple-Keeps : (m : Exec A) → Keeps I m → Triple I P m Any
  Triple-Keeps m km = record { keeps = λ s h k p. km.at s h k; returns = λ s h k p a e. tt }

  pub Triple-pure : (a : A) (Q : A → Db → Type 0) → ((d : Db) → P d → Q a d) → Triple I P (pure a) Q
  unfolding ◌>>=◌
  Triple-pure a Q q = record {
    keeps = λ s h k p. (h, k);
    returns = λ s h k p b e. rw (← ok_value a b e) (q s.current p);
  }
    where
      ok_value : (a b : A) → ok a ≡ ok b → a ≡ b
      ok_value a b e = cc

module _ {A B : Type 0} {I : Db → Type 0} {Q : A → Db → Type 0} {R : B → Db → Type 0} where
  lift_result-keeps :
      (r : Result A) (f : A → Exec B) (s : Session)
      → ((a : A) → Triple I (Q a) (f a) R)
      → I s.current
      → I s.committed
      → ((a : A) → r ≡ ok a → Q a s.current)
      → I (lift_result r f s).1.current × I (lift_result r f s).1.committed
  lift_result-keeps (ok a) f s kf h k q = (kf a).keeps s h k (q a refl)
  lift_result-keeps (err e) f s kf h k q = (h, k)

  lift_result-returns :
      (r : Result A) (f : A → Exec B) (s : Session)
      → ((a : A) → Triple I (Q a) (f a) R)
      → I s.current
      → I s.committed
      → ((a : A) → r ≡ ok a → Q a s.current)
      → (b : B) → (lift_result r f s).0 ≡ ok b
      → R b (lift_result r f s).1.current
  lift_result-returns (ok a) f s kf h k q b e = (kf a).returns s h k (q a refl) b e
  lift_result-returns (err x) f s kf h k q b e = absurd (ground arith)

  pub Triple-bind :
      {P : Db → Type 0} (m : Exec A) (f : A → Exec B)
      → Triple I P m Q
      → ((a : A) → Triple I (Q a) (f a) R)
      → Triple I P (m >>= f) R
  unfolding ◌>>=◌
  Triple-bind m f km kf = record {
    keeps = λ s h k p.
        let (h', k') = km.keeps s h k p in
        lift_result-keeps (m s).0 f (m s).1 kf h' k' (km.returns s h k p);
    returns = λ s h k p b e.
        let (h', k') = km.keeps s h k p in
        lift_result-returns (m s).0 f (m s).1 kf h' k' (km.returns s h k p) b e;
  }

module _ {A B : Type 0} {I P : Db → Type 0} {R : B → Db → Type 0} where
  -- What follows a read knows that the value was read in the state at hand.
  pub Triple-gets-bind :
      (g : Db → A) (f : A → Exec B)
      → ((a : A) → Triple I (λ d. P d × (a ≡ g d)) (f a) R)
      → Triple I P (gets g >>= f) R
  unfolding ◌>>=◌
  Triple-gets-bind g f kf = record {
    keeps = λ s h k p. (kf (g s.current)).keeps s h k (p, refl);
    returns = λ s h k p. (kf (g s.current)).returns s h k (p, refl);
  }

module _ {A : Type 0} {I P P' : Db → Type 0} where
  -- A property that follows from the one at hand.
  pub Triple-from :
      (m : Exec A) (Q : A → Db → Type 0)
      → ((d : Db) → I d → P d → P' d)
      → Triple I P' m Q
      → Triple I P m Q
  Triple-from m Q f km = record {
    keeps = λ s h k p. km.keeps s h k (f s.current h p);
    returns = λ s h k p. km.returns s h k (f s.current h p);
  }

module _ {A : Type 0} {I : Db → Type 0} where
  pub Keeps-Triple : (m : Exec A) (Q : A → Db → Type 0) → Triple I (λ d. Unit) m Q → Keeps I m
  Keeps-Triple m Q t = record { at = λ s h k. t.keeps s h k tt }

module _ {A : Type 0} {I P : Db → Type 0} where
  pub Triple-if :
      (test : Bool) (first second : Exec A) (Q : A → Db → Type 0)
      → (test ≡ false → Triple I P second Q)
      → (test ≡ true → Triple I P first Q)
      → Triple I P (if test then first else second) Q
  Triple-if false first second Q otherwise chosen = otherwise refl
  Triple-if true first second Q otherwise chosen = chosen refl

module _ {I P : Db → Type 0} where
  pub Triple-modify : (f : Db → Db) → ((d : Db) → I d → P d → I (f d)) → Triple I P (modify f) Any
  unfolding ◌>>=◌
  Triple-modify f step = record {
    keeps = λ s h c p. (step s.current h p, c);
    returns = λ s h c p a e. tt;
  }

module _ {B : Type 0} {I P : Db → Type 0} {R : B → Db → Type 0} where
  -- A change after which the property at hand still holds.
  pub Triple-modify-bind :
      (f : Db → Db) (k : Unit → Exec B)
      → Keeps I (modify f)
      → ((d : Db) → P d → P (f d))
      → Triple I P (k tt) R
      → Triple I P (modify f >>= k) R
  unfolding ◌>>=◌
  Triple-modify-bind f k km frame kk = record {
    keeps = λ s h c p.
        let (h', c') = km.at s h c in
        kk.keeps (record s { current = f s.current }) h' c' (frame s.current p);
    returns = λ s h c p.
        let (h', c') = km.at s h c in
        kk.returns (record s { current = f s.current }) h' c' (frame s.current p);
  }
