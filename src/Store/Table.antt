-- ===== src/Store/Table.antt =====
-- A table: its rows in the order of insertion, found and rewritten by their key.
use hermes_orchestrator.Prelude.{
  ℕ, ◌+◌, ◌≡◌, refl, ◌≢◌, Bool, true, Option, none, some, List, [], ◌∷◌, ◌++◌, arith, ◌==◌,
  if◌then◌else◌, to_nat, find, filter, count, All, All-map, ==_self, ==→≡, Bool-cases, inl, inr,
  subst,
}

-- The primary key of a row.
pub record Keyed (A : Type 0) : Type 0 where
  pub key : A → ℕ

module _ {A : Type 0} ⦃k : Keyed A⦄ where
  -- `session.get(A, i)`
  unfoldable pub get : ℕ → List A → Option A
  get i [] = none
  get i (x ∷ xs) = let rest = get i xs in if k.key x == i then some x else rest

  -- The flush of a changed row.
  unfoldable pub put : A → List A → List A
  put x [] = []
  put x (y ∷ ys) = let rest = put x ys in if k.key y == k.key x then x ∷ ys else y ∷ rest

  -- No two rows share a key.
  abbrev pub Distinct : List A → Type 0
  Distinct [] = Unit
  Distinct (x ∷ xs) = (get (k.key x) xs ≡ none) × Distinct xs

  pub get-key : (i : ℕ) (t : List A) (x : A) → get i t ≡ some x → k.key x ≡ i
  unfolding get
  get-key i [] x h = ground arith
  get-key i (y ∷ ys) x h = ground (arith, get-key i ys x)

  pub get-put_self :
      (x y : A) (t : List A) → get (k.key x) t ≡ some y → get (k.key x) (put x t) ≡ some x
  unfolding get put
  get-put_self x y [] h = ground arith
  get-put_self x y (z ∷ zs) h = ground (arith, get-put_self x y zs)

  pub get-put_ne : (x : A) (j : ℕ) (t : List A) → k.key x ≢ j → get j (put x t) ≡ get j t
  unfolding get put
  get-put_ne x j [] h = refl
  get-put_ne x j (z ∷ zs) h = ground (arith, get-put_ne x j zs h)

  pub Distinct-put : (x : A) (t : List A) → Distinct t → Distinct (put x t)
  unfolding get put
  Distinct-put x [] d = tt
  Distinct-put x (y ∷ ys) d = ground (arith, Distinct-put x ys d.1, get-put_ne x (k.key y) ys)

  pub get-append :
      (i : ℕ) (t : List A) (x : A)
      → get i (t ++ x ∷ [])
        ≡ elim (get i t) [ some y ↦ some y | none ↦ if k.key x == i then some x else none ]
  unfolding get
  get-append i [] x = refl
  get-append i (y ∷ ys) x = ground (arith, get-append i ys x)

  pub Distinct-append :
      (t : List A) (x : A) → Distinct t → get (k.key x) t ≡ none → Distinct (t ++ x ∷ [])
  unfolding get
  Distinct-append [] x d h = (refl, tt)
  Distinct-append (y ∷ ys) x d h =
      ground (arith, Distinct-append ys x d.1, get-append (k.key y) ys x)

  -- A search finds a row that its key finds.
  pub get-find :
      (p : A → Bool) (t : List A) (x : A)
      → Distinct t
      → find p t ≡ some x
      → get (k.key x) t ≡ some x
  unfolding get
  get-find p [] x d h = ground arith
  get-find p (y ∷ ys) x d h =
      ground (arith, get-find p ys x d.1, ==_self (k.key y), get-key (k.key x) ys x)

  row_behind :
      (y x : A) (t : List A)
      → get (k.key y) t ≡ none
      → get (k.key x) t ≡ some x
      → get (k.key x) (y ∷ t) ≡ some x
  unfolding get
  row_behind y x t fresh h = elim (Bool-cases (k.key y == k.key x)) [
    | inl same ↦ absurd (grind (arith, ==→≡ (k.key y) (k.key x) same))
    | inr other ↦ ground arith
  ]

  -- What a filter keeps are rows of the table that pass its test.
  pub All-filter :
      (p : A → Bool) (t : List A)
      → Distinct t
      → All (λ x. (get (k.key x) t ≡ some x) × (p x ≡ true)) (filter p t)
  unfolding get
  All-filter p [] d = tt
  All-filter p (y ∷ ys) d =
      let behind : All (λ x. (get (k.key x) (y ∷ ys) ≡ some x) × (p x ≡ true)) (filter p ys) =
        All-map _ _ (filter p ys) (λ x h. (row_behind y x ys d.0 h.0, h.1)) (All-filter p ys d.1) in
      elim (Bool-cases (p y)) [
        | inl keep ↦ rw keep ((ground (arith, ==_self (k.key y)), keep), behind)
        | inr drop ↦ rw drop behind
      ]

  pub count-put :
      (p : A → Bool) (x y : A) (t : List A)
      → get (k.key x) t ≡ some y
      → count p (put x t) + to_nat (p y) ≡ count p t + to_nat (p x)
  unfolding get put
  count-put p x y [] h = ground arith
  count-put p x y (z ∷ zs) h = grind (arith, count-put p x y zs)

module _ {A : Type 0} ⦃k : Keyed A⦄ (P : A → Type 0) where
  pub All-put : (x : A) (t : List A) → P x → All P t → All P (put x t)
  unfolding put
  All-put x [] px h = tt
  All-put x (y ∷ ys) px h = ground (arith, All-put x ys px h.1)

  pub All-get : (i : ℕ) (t : List A) (x : A) → All P t → get i t ≡ some x → P x
  unfolding get
  All-get i [] x h e = absurd (ground arith)
  All-get i (y ∷ ys) x h e = elim (Bool-cases (k.key y == i)) [
    | inl here ↦ subst P (ground arith) h.0
    | inr there ↦ All-get i ys x h.1 (ground arith)
  ]
