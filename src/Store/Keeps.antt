-- ===== src/Store/Keeps.antt =====
-- Invariants of actions: what holds of the working state and of the stored state before an action
-- holds of both after it, whether it returns or raises. One rule for each way to build an action.
use hermes_orchestrator.Prelude.{
  ℕ, suc, ◌≡◌, refl, sym, ◌∙◌, subst, Bool, true, false, Option, none, some, List, if◌then◌else◌,
}
use hermes_orchestrator.Models.Rows.{Run}
use hermes_orchestrator.Store.Exec.{
  Db, Session, Exception, Result, ok, err, Exec, pure, raise, gets, or_raise, modify, commit,
  effective_time, raise_if, when, uuid4, add_row, ◌>>=◌, lift_result, request,
}

pub record Keeps {A : Type 0} (P : Db → Type 0) (m : Exec A) : Type 0 where
  pub at : (s : Session) → P s.current → P s.committed → P (m s).1.current × P (m s).1.committed

module _ {A : Type 0} {P : Db → Type 0} where
  pub Keeps-pure : (a : A) → Keeps P (pure a)
  unfolding ◌>>=◌
  Keeps-pure a = record { at = λ s h k. (h, k) }

  pub Keeps-raise : (e : Exception) → Keeps P (raise {A = A} e)
  unfolding ◌>>=◌
  Keeps-raise e = record { at = λ s h k. (h, k) }

  pub Keeps-gets : (f : Db → A) → Keeps P (gets f)
  unfolding ◌>>=◌
  Keeps-gets f = record { at = λ s h k. (h, k) }

  pub Keeps-or_raise : (o : Option A) (e : Exception) → Keeps P (or_raise o e)
  unfolding ◌>>=◌
  Keeps-or_raise none e = record { at = λ s h k. (h, k) }
  Keeps-or_raise (some a) e = record { at = λ s h k. (h, k) }

module _ {P : Db → Type 0} where
  pub Keeps-modify : (f : Db → Db) → ((d : Db) → P d → P (f d)) → Keeps P (modify f)
  unfolding ◌>>=◌
  Keeps-modify f step = record { at = λ s h k. (step s.current h, k) }

  pub Keeps-commit : Keeps P commit
  unfolding ◌>>=◌
  Keeps-commit = record { at = λ s h k. (h, h) }

  pub Keeps-effective_time : (now : Option ℕ) → Keeps P (effective_time now)
  unfolding ◌>>=◌
  Keeps-effective_time now = record { at = λ s h k. (h, k) }

  pub Keeps-raise_if : (b : Bool) (e : Exception) → Keeps P (raise_if b e)
  unfolding ◌>>=◌
  Keeps-raise_if true e = record { at = λ s h k. (h, k) }
  Keeps-raise_if false e = record { at = λ s h k. (h, k) }

  pub Keeps-when : (b : Bool) (m : Exec Unit) → (b ≡ true → Keeps P m) → Keeps P (when b m)
  unfolding ◌>>=◌
  Keeps-when true m km = record { at = (km refl).at }
  Keeps-when false m km = record { at = λ s h k. (h, k) }

  pub Keeps-uuid4 : ((d : Db) → P d → P (record d { next_id = suc d.next_id })) → Keeps P uuid4
  unfolding ◌>>=◌
  Keeps-uuid4 step = record { at = λ s h k. (step s.current h, k) }

  pub Keeps-add_row :
      (f : ℕ → Db → Db)
      → ((d : Db) → P d → P (f d.next_id (record d { next_id = suc d.next_id })))
      → Keeps P (add_row f)
  unfolding ◌>>=◌
  Keeps-add_row f step = record { at = λ s h k. (step s.current h, k) }

module _ {A B : Type 0} {P : Db → Type 0} where
  Keeps-lift_result :
      (r : Result A) (f : A → Exec B)
      → ((a : A) → Keeps P (f a))
      → (s : Session) → P s.current
      → P s.committed
      → P (lift_result r f s).1.current × P (lift_result r f s).1.committed
  Keeps-lift_result (ok a) f kf s h k = (kf a).at s h k
  Keeps-lift_result (err e) f kf s h k = (h, k)

  pub Keeps-bind :
      (m : Exec A) (f : A → Exec B) → Keeps P m → ((a : A) → Keeps P (f a)) → Keeps P (m >>= f)
  unfolding ◌>>=◌
  Keeps-bind m f km kf = record {
    at = λ s h k.
        let (r, s') = m s in let (h', k') = km.at s h k in Keeps-lift_result r f kf s' h' k';
  }

  -- What follows a guard may use that it passed.
  pub Keeps-or_raise-bind :
      (o : Option A) (e : Exception) (f : A → Exec B)
      → ((a : A) → o ≡ some a → Keeps P (f a))
      → Keeps P (or_raise o e >>= f)
  unfolding ◌>>=◌
  Keeps-or_raise-bind none e f kf = record { at = λ s h k. (h, k) }
  Keeps-or_raise-bind (some a) e f kf = record { at = (kf a refl).at }

  -- What follows a read may use what the invariant says of the value.
  pub Keeps-gets-bind :
      (g : Db → A) (f : A → Exec B) → ((d : Db) → P d → Keeps P (f (g d))) → Keeps P (gets g >>= f)
  unfolding ◌>>=◌
  Keeps-gets-bind g f kf = record { at = λ s h k. (kf s.current h).at s h k }

module _ {B : Type 0} {P : Db → Type 0} where
  pub Keeps-raise_if-bind :
      (b : Bool) (e : Exception) (f : Unit → Exec B)
      → (b ≡ false → Keeps P (f tt))
      → Keeps P (raise_if b e >>= f)
  unfolding ◌>>=◌
  Keeps-raise_if-bind true e f kf = record { at = λ s h k. (h, k) }
  Keeps-raise_if-bind false e f kf = record { at = (kf refl).at }

  pub Keeps-if :
      (test : Bool) (first second : Exec B)
      → (test ≡ false → Keeps P second)
      → (test ≡ true → Keeps P first)
      → Keeps P (if test then first else second)
  Keeps-if false first second otherwise chosen = otherwise refl
  Keeps-if true first second otherwise chosen = chosen refl

-- An invariant that an action keeps holds of the stored state after a request.
pub Keeps-request :
    {A : Type 0} {P : Db → Type 0} (m : Exec A) (now : ℕ) (d : Db)
    → Keeps P m
    → P d
    → P (request m now d).1
unfolding request
Keeps-request m now d km h = (km.at (record { current = d; committed = d; clock = now }) h h).1

pub ruleset keeps_rules = (
  Keeps-pure, Keeps-raise, Keeps-gets, Keeps-commit, Keeps-effective_time, Keeps-raise_if,
  Keeps-or_raise-bind, Keeps-raise_if-bind, Keeps-bind, Keeps-or_raise,
)

-- An action that stores nothing and leaves the tasks, the runs and the approvals alone.
pub record LeavesLifecycle {A : Type 0} (m : Exec A) : Type 0 where
  pub tasks : (s : Session) → (m s).1.current.tasks ≡ s.current.tasks
  pub runs : (s : Session) → (m s).1.current.runs ≡ s.current.runs
  pub approvals : (s : Session) → (m s).1.current.approvals ≡ s.current.approvals
  pub committed : (s : Session) → (m s).1.committed ≡ s.committed

module _ {A B : Type 0} where
  lift_result-same :
      {C : Type 0} (g : Session → C) (r : Result A) (f : A → Exec B)
      → ((a : A) (s : Session) → g (f a s).1 ≡ g s)
      → (s : Session) → g (lift_result r f s).1 ≡ g s
  lift_result-same g (ok a) f h s = h a s
  lift_result-same g (err e) f h s = refl

  pub LeavesLifecycle-bind :
      (m : Exec A) (f : A → Exec B)
      → LeavesLifecycle m
      → ((a : A) → LeavesLifecycle (f a))
      → LeavesLifecycle (m >>= f)
  unfolding ◌>>=◌
  LeavesLifecycle-bind m f l lf = record {
    tasks = λ s.
        lift_result-same (λ t. t.current.tasks) (m s).0 f (λ a. (lf a).tasks) (m s).1 ∙ l.tasks s;
    runs =
        λ s. lift_result-same (λ t. t.current.runs) (m s).0 f (λ a. (lf a).runs) (m s).1 ∙ l.runs s;
    approvals = λ s.
        lift_result-same (λ t. t.current.approvals) (m s).0 f (λ a. (lf a).approvals) (m s).1
        ∙ l.approvals s;
    committed = λ s.
        lift_result-same (λ t. t.committed) (m s).0 f (λ a. (lf a).committed) (m s).1
        ∙ l.committed s;
  }

pub LeavesLifecycle-pure : {A : Type 0} (a : A) → LeavesLifecycle (pure a)
unfolding ◌>>=◌
LeavesLifecycle-pure a = record {
  tasks = λ s. refl;
  runs = λ s. refl;
  approvals = λ s. refl;
  committed = λ s. refl;
}

pub LeavesLifecycle-when :
    (b : Bool) (m : Exec Unit) → LeavesLifecycle m → LeavesLifecycle (when b m)
unfolding ◌>>=◌
LeavesLifecycle-when true m l = record {
  tasks = l.tasks;
  runs = l.runs;
  approvals = l.approvals;
  committed = l.committed;
}
LeavesLifecycle-when false m l = record {
  tasks = λ s. refl;
  runs = λ s. refl;
  approvals = λ s. refl;
  committed = λ s. refl;
}

pub Keeps-LeavesLifecycle :
    {A : Type 0} (P : List Run → Type 0) (m : Exec A) → LeavesLifecycle m → Keeps (λ d. P d.runs) m
Keeps-LeavesLifecycle P m l = record {
  at = λ s h k. (subst P (sym (l.runs s)) h, subst (λ d. P d.runs) (sym (l.committed s)) k);
}
