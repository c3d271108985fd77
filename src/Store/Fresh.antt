-- ===== src/Store/Fresh.antt =====
-- Tables whose keys are distinct and below the next identifier.
use hermes_orchestrator.Prelude.{
  ℕ, suc, ◌≤◌, ◌<◌, ◌≡◌, refl, sym, subst, none, List, [], ◌∷◌, ◌++◌, arith, All, All-map,
  All-append,
}
use hermes_orchestrator.Store.Table.{Keyed, get, put, Distinct, Distinct-put, Distinct-append}
use hermes_orchestrator.Store.Exec.{Db, Session, Exec, Run-Keyed, Approval-Keyed}
use hermes_orchestrator.Store.Keeps.{Keeps, LeavesLifecycle}

module _ {A : Type 0} ⦃k : Keyed A⦄ where
  abbrev pub FreshIds : ℕ → List A → Type 0
  FreshIds n t = Distinct t × All (λ x. k.key x < n) t

  keys_below-put :
      (x : A) (n : ℕ) (t : List A) → All (λ y. k.key y < n) t → All (λ y. k.key y < n) (put x t)
  unfolding put
  keys_below-put x n [] h = tt
  keys_below-put x n (y ∷ ys) h = ground (arith, keys_below-put x n ys h.1, h.0)

  get_above : (i : ℕ) (t : List A) → All (λ y. k.key y < i) t → get i t ≡ none
  unfolding get
  get_above i [] h = refl
  get_above i (y ∷ ys) h = ground (arith, get_above i ys h.1, h.0)

  pub put-FreshIds : (x : A) (n : ℕ) (t : List A) → FreshIds n t → FreshIds n (put x t)
  put-FreshIds x n t h = (Distinct-put x t h.0, keys_below-put x n t h.1)

  pub more-FreshIds : (n m : ℕ) (t : List A) → n ≤ m → FreshIds n t → FreshIds m t
  more-FreshIds n m t le h = (h.0, All-map _ _ t (λ y b. omega arith) h.1)

  pub append-FreshIds :
      (x : A) (n : ℕ) (t : List A) → k.key x ≡ n → FreshIds n t → FreshIds (suc n) (t ++ x ∷ [])
  append-FreshIds x n t e h = (
    Distinct-append t x h.0 (subst (λ i. get i t ≡ none) (sym e) (get_above n t h.1)),
    All-append _ t (x ∷ []) (more-FreshIds n (suc n) t (omega arith) h).1 (omega arith, tt),
  )

-- The runs and the approvals have distinct identifiers, and the next one is new.
abbrev pub Fresh : Db → Type 0
Fresh d = FreshIds d.next_id d.runs × FreshIds d.next_id d.approvals

pub Keeps-Fresh :
    {A : Type 0} (m : Exec A)
    → LeavesLifecycle m
    → ((s : Session) → s.current.next_id ≤ (m s).1.current.next_id)
    → Keeps Fresh m
Keeps-Fresh m l more = record {
  at = λ s h k. (
    (
      subst (FreshIds _) (sym (l.runs s)) (more-FreshIds _ _ _ (more s) h.0),
      subst (FreshIds _) (sym (l.approvals s)) (more-FreshIds _ _ _ (more s) h.1),
    ),
    subst Fresh (sym (l.committed s)) k,
  );
}
