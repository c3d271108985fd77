-- ===== src/Agents/Policy/Within.antt =====
-- The tests of the policy's fields, as statements on their values.
use hermes_orchestrator.Prelude.{
  ℕ, ◌≤◌, ◌≡◌, refl, ap, ◌⊎◌, inl, inr, true, String, Option, none, some, List, [], ◌∷◌, arith,
  eq_iff, str_eq, str_in, All, some_and, Option-cases, Bool-cases,
}
use hermes_orchestrator.Models.Json.{
  pos, negsuc, Json, null, boolean, integer, decimal, text, uuid, instant, array, object, Items,
  nil, cons, Fields, end, field, as_text, get, number, texts,
}
use hermes_orchestrator.Policy.Permissions.{lookup}
use hermes_orchestrator.Agents.Evaluation.{
  sequence, text_items, is_subset, keys_subset, sequence_within, absent_or_text, absent_or_only,
  absent_or_in, entry_within, budget_excess,
}

-- Absent, or a list of texts that are all allowed.
pub ListWithin : Option Json → List String → Type 0
ListWithin value allowed =
    (value ≡ none)
    ⊎ ((xs : List String) × (value ≡ some (array (texts xs)))
        × All (λ x. str_in x allowed ≡ true) xs)

-- Absent, or the text that is expected.
pub AbsentOr : Option Json → Json → Type 0
AbsentOr value expected = (value ≡ none) ⊎ (value ≡ some expected)

-- Absent, or one of the texts that are allowed.
pub AbsentIn : Option Json → List String → Type 0
AbsentIn value allowed =
    (value ≡ none) ⊎ ((s : String) × (value ≡ some (text s)) × (str_in s allowed ≡ true))

-- Each value of the dictionary is a natural number within the limit of its key.
pub BudgetWithin : List (String × ℕ) → Fields → Type 0
BudgetWithin limits budget =
    (key : String) (value : Json)
    → get key budget ≡ some value
    → (n : ℕ) × (limit : ℕ) × (value ≡ number n) × (lookup key limits ≡ some limit) × (n ≤ limit)

text_items-texts :
    (items : Items) (xs : List String) → text_items items ≡ some xs → items ≡ texts xs
unfolding text_items
text_items-texts nil [] h = refl
text_items-texts nil (x ∷ xs) h = absurd (ground arith)
text_items-texts (cons (text s) items) xs h = elim (Option-cases (text_items items)) [
  | inl bad ↦ absurd (ground arith)
  | inr (ss, good) ↦ ground (arith, text_items-texts items ss good)
]
text_items-texts (cons null items) xs h = absurd (ground arith)
text_items-texts (cons (boolean b) items) xs h = absurd (ground arith)
text_items-texts (cons (integer n) items) xs h = absurd (ground arith)
text_items-texts (cons (decimal n) items) xs h = absurd (ground arith)
text_items-texts (cons (uuid n) items) xs h = absurd (ground arith)
text_items-texts (cons (instant n) items) xs h = absurd (ground arith)
text_items-texts (cons (array n) items) xs h = absurd (ground arith)
text_items-texts (cons (object n) items) xs h = absurd (ground arith)

is_subset-All : (xs ys : List String) → is_subset xs ys ≡ true → All (λ x. str_in x ys ≡ true) xs
unfolding is_subset
is_subset-All [] ys h = tt
is_subset-All (x ∷ xs) ys h = (ground arith, is_subset-All xs ys (ground arith))

array_within :
    (items : Items) (allowed : List String)
    → some_and (λ xs. is_subset xs allowed) (text_items items) ≡ true
    → ListWithin (some (array items)) allowed
unfolding ListWithin
array_within items allowed h = elim (Option-cases (text_items items)) [
  | inl bad ↦ absurd (ground arith)
  | inr (xs, good) ↦ inr (
    xs,
    ap (λ i. some (array i)) (text_items-texts items xs good),
    is_subset-All xs allowed (ground arith),
  )
]

pub sequence_within-ListWithin :
    (value : Option Json) (allowed : List String)
    → sequence_within value allowed ≡ true
    → ListWithin value allowed
unfolding sequence_within sequence ListWithin
sequence_within-ListWithin none allowed h = inl refl
sequence_within-ListWithin (some (array items)) allowed h = array_within items allowed h
sequence_within-ListWithin (some null) allowed h = cc
sequence_within-ListWithin (some (boolean b)) allowed h = cc
sequence_within-ListWithin (some (integer b)) allowed h = cc
sequence_within-ListWithin (some (decimal b)) allowed h = cc
sequence_within-ListWithin (some (text b)) allowed h = cc
sequence_within-ListWithin (some (uuid b)) allowed h = cc
sequence_within-ListWithin (some (instant b)) allowed h = cc
sequence_within-ListWithin (some (object b)) allowed h = cc

pub absent_or_text-AbsentOr :
    (value : Option Json) (s : String) → absent_or_text value s ≡ true → AbsentOr value (text s)
unfolding absent_or_text AbsentOr
absent_or_text-AbsentOr none s h = inl refl
absent_or_text-AbsentOr (some (text x)) s h = inr (ground (arith, eq_iff x s))
absent_or_text-AbsentOr (some null) s h = cc
absent_or_text-AbsentOr (some (boolean b)) s h = cc
absent_or_text-AbsentOr (some (integer b)) s h = cc
absent_or_text-AbsentOr (some (decimal b)) s h = cc
absent_or_text-AbsentOr (some (array b)) s h = cc
absent_or_text-AbsentOr (some (uuid b)) s h = cc
absent_or_text-AbsentOr (some (instant b)) s h = cc
absent_or_text-AbsentOr (some (object b)) s h = cc

pub absent_or_only-AbsentOr :
    (value : Option Json) (s : String)
    → absent_or_only value s ≡ true
    → AbsentOr value (array (texts (s ∷ [])))
unfolding absent_or_only AbsentOr
absent_or_only-AbsentOr none s h = inl refl
absent_or_only-AbsentOr (some (array (cons (text x) nil))) s h = inr (ground (arith, eq_iff x s))
absent_or_only-AbsentOr (some (array nil)) s h = absurd (ground arith)
absent_or_only-AbsentOr (some (array (cons x items))) s h = absurd (ground arith)
absent_or_only-AbsentOr (some (text x)) s h = cc
absent_or_only-AbsentOr (some null) s h = cc
absent_or_only-AbsentOr (some (boolean b)) s h = cc
absent_or_only-AbsentOr (some (integer b)) s h = cc
absent_or_only-AbsentOr (some (decimal b)) s h = cc
absent_or_only-AbsentOr (some (uuid b)) s h = cc
absent_or_only-AbsentOr (some (instant b)) s h = cc
absent_or_only-AbsentOr (some (object b)) s h = cc

pub absent_or_in-AbsentIn :
    (value : Option Json) (allowed : List String)
    → absent_or_in value allowed ≡ true
    → AbsentIn value allowed
unfolding absent_or_in AbsentIn
absent_or_in-AbsentIn none allowed h = inl refl
absent_or_in-AbsentIn (some (text s)) allowed h = inr (s, refl, h)
absent_or_in-AbsentIn (some null) allowed h = cc
absent_or_in-AbsentIn (some (boolean b)) allowed h = cc
absent_or_in-AbsentIn (some (integer b)) allowed h = cc
absent_or_in-AbsentIn (some (decimal b)) allowed h = cc
absent_or_in-AbsentIn (some (array b)) allowed h = cc
absent_or_in-AbsentIn (some (uuid b)) allowed h = cc
absent_or_in-AbsentIn (some (instant b)) allowed h = cc
absent_or_in-AbsentIn (some (object b)) allowed h = cc

pub as_text-text :
    (value : Option Json) (s : String) → as_text value ≡ some s → value ≡ some (text s)
unfolding as_text
as_text-text none s h = cc
as_text-text (some (text x)) s h = ground arith
as_text-text (some null) s h = cc
as_text-text (some (boolean b)) s h = cc
as_text-text (some (integer b)) s h = cc
as_text-text (some (decimal b)) s h = cc
as_text-text (some (array b)) s h = cc
as_text-text (some (uuid b)) s h = cc
as_text-text (some (instant b)) s h = cc
as_text-text (some (object b)) s h = cc

pub keys_subset-in :
    (d : Fields) (allowed : List String) (key : String) (value : Json)
    → keys_subset d allowed ≡ true
    → get key d ≡ some value
    → str_in key allowed ≡ true
unfolding keys_subset get
keys_subset-in end allowed key value h found = absurd (ground arith)
keys_subset-in (field k v d) allowed key value h found = elim (Bool-cases (str_eq k key)) [
  | inl here ↦ let same : k ≡ key = ground (arith, eq_iff k key) in rw (← same) (ground arith)
  | inr there ↦ keys_subset-in d allowed key value (ground arith) (ground arith)
]

entry_within-number :
    (limits : List (String × ℕ)) (key : String) (value : Json)
    → entry_within limits key value ≡ true
    → (n : ℕ) × (limit : ℕ) × (value ≡ number n) × (lookup key limits ≡ some limit) × (n ≤ limit)
unfolding entry_within
entry_within-number limits key (integer (pos n)) h = elim (Option-cases (lookup key limits)) [
  | inl missing ↦ absurd (ground arith)
  | inr (limit, found) ↦ (n, limit, refl, found, ground arith)
]
entry_within-number limits key (integer (negsuc n)) h = cc
entry_within-number limits key null h = cc
entry_within-number limits key (boolean b) h = cc
entry_within-number limits key (decimal b) h = cc
entry_within-number limits key (text b) h = cc
entry_within-number limits key (uuid b) h = cc
entry_within-number limits key (instant b) h = cc
entry_within-number limits key (array b) h = cc
entry_within-number limits key (object b) h = cc

pub budget_excess-BudgetWithin :
    (limits : List (String × ℕ)) (budget : Fields)
    → budget_excess limits budget ≡ none
    → BudgetWithin limits budget
unfolding budget_excess get BudgetWithin
budget_excess-BudgetWithin limits end h key value found = absurd (ground arith)
budget_excess-BudgetWithin limits (field k v d) h key value found =
    elim (Bool-cases (str_eq k key)) [
      | inl here ↦
          let same : k ≡ key = ground (arith, eq_iff k key) in
          let kept : v ≡ value = ground arith in
          rw (← same, ← kept) (entry_within-number limits k v (ground arith))
      | inr there ↦ budget_excess-BudgetWithin limits d (ground arith) key value (ground arith)
    ]
