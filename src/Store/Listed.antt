-- ===== src/Store/Listed.antt =====
-- A table in which the rows that satisfy a test are among some listed ones: what is left of them
-- when the listed rows are rewritten one by one.
use hermes_orchestrator.Prelude.{
  ℕ, ◌≡◌, refl, ◌∙◌, sym, subst, inl, inr, Bool, true, false, none, List, [], ◌∷◌, arith, ◌==◌,
  ==_self, ==→≡, any, filter, All, All-map, Bool-cases,
}
use hermes_orchestrator.Store.Table.{Keyed, get, put, Distinct}

module _ {A : Type 0} ⦃k : Keyed A⦄ where
  -- One of the rows has that identifier.
  abbrev pub listed : ℕ → List A → Bool
  listed i rows = any (λ a. (k.key a) == i) rows

  put-here : (x y : A) (ys : List A) → (k.key y == (k.key x)) ≡ true → put x (y ∷ ys) ≡ x ∷ ys
  unfolding put
  put-here x y ys h = rw h refl

  put-there :
      (x y : A) (ys : List A) → (k.key y == (k.key x)) ≡ false → put x (y ∷ ys) ≡ y ∷ put x ys
  unfolding put
  put-there x y ys h = rw h refl

  module _ (p : A → Bool) where
    -- The rows of the table that satisfy the test are among the listed ones.
    abbrev pub Listed : List A → List A → Type 0
    Listed rows t = All (λ x. p x ≡ true → listed (k.key x) rows ≡ true) t

    -- Rows without that identifier stay listed when it is taken off the list.
    drop-Listed :
        (a : A) (rest t : List A) → get (k.key a) t ≡ none → Listed (a ∷ rest) t → Listed rest t
    unfolding get
    drop-Listed a rest [] h l = tt
    drop-Listed a rest (y ∷ ys) h l =
        (λ e. ground (arith, l.0 e), drop-Listed a rest ys (ground arith) l.1)

    pub put-Listed :
        (a a' : A) (rest t : List A)
        → (k.key a') ≡ (k.key a)
        → p a' ≡ false
        → Distinct t
        → Listed (a ∷ rest) t
        → Listed rest (put a' t)
    unfolding put
    put-Listed a a' rest [] same out u l = tt
    put-Listed a a' rest (y ∷ ys) same out u l = elim (Bool-cases (k.key y == (k.key a'))) [
      | inl here ↦ subst (Listed rest) (sym (put-here a' y ys here)) (
        (λ e. ground arith),
        drop-Listed a rest ys
            (subst (λ i. get i ys ≡ none) (==→≡ (k.key y) (k.key a') here ∙ same) u.0) l.1,
      )
      | inr other ↦
          subst (Listed rest) (sym (put-there a' y ys other))
            ((λ e. ground (arith, l.0 e)), put-Listed a a' rest ys same out u.1 l.1)
    ]

    pub none-Listed : (t : List A) → Listed [] t → filter p t ≡ []
    none-Listed [] l = refl
    none-Listed (y ∷ ys) l = ground (arith, l.0, none-Listed ys l.1)

    pub all-Listed : (t : List A) → Listed (filter p t) t
    all-Listed [] = tt
    all-Listed (y ∷ ys) = (
      λ e. ground (arith, ==_self (k.key y)),
      All-map _ _ ys (λ x h e. ground (arith, h e)) (all-Listed ys),
    )
