-- ===== src/Usage/Limits/Narrowing.antt =====
-- Budgets only narrow: no source of limits is exceeded by the limits that are resolved from all.
use hermes_orchestrator.Prelude.{
  ℕ, ◌≤◌, zero, suc, max, Option, none, some, List, [], ◌∷◌, arith, String, filter, All, All-map,
  or_else,
}
use hermes_orchestrator.Models.Rows.{Task, Budget}
use hermes_orchestrator.Models.Settings.{Settings}
use hermes_orchestrator.Usage.Limits.{
  ControlLimits, Values, min_limit, settings_values, budget_values, task_values, narrow,
  budget_matches, narrow_all, or_default, to_limits, resolve_limits,
}

-- The first limit is no looser than the second, where the second is set.
abbrev pub NoLooser : Option ℕ → Option ℕ → Type 0
NoLooser _ none = Unit
NoLooser none (some n) = ⊥
NoLooser (some m) (some n) = m ≤ n

record Tighter (v w : Values) : Type 0 where
  window_seconds : NoLooser v.window_seconds w.window_seconds
  soft_token_limit : NoLooser v.soft_token_limit w.soft_token_limit
  hard_token_limit : NoLooser v.hard_token_limit w.hard_token_limit
  max_concurrent_runs : NoLooser v.max_concurrent_runs w.max_concurrent_runs
  max_fan_out : NoLooser v.max_fan_out w.max_fan_out
  max_retries : NoLooser v.max_retries w.max_retries
  circuit_failure_threshold : NoLooser v.circuit_failure_threshold w.circuit_failure_threshold
  circuit_cooldown_seconds : NoLooser v.circuit_cooldown_seconds w.circuit_cooldown_seconds

NoLooser-refl : (a : Option ℕ) → NoLooser a a
NoLooser-refl none = tt
NoLooser-refl (some n) = omega arith

NoLooser-trans : (a b c : Option ℕ) → NoLooser a b → NoLooser b c → NoLooser a c
NoLooser-trans a b none h k = tt
NoLooser-trans a none (some n) h k = absurd k
NoLooser-trans none (some m) (some n) h k = absurd h
NoLooser-trans (some l) (some m) (some n) h k = omega arith

min_limit_left : (a b : Option ℕ) → NoLooser (min_limit a b) a
min_limit_left none b = tt
min_limit_left (some m) none = omega arith
min_limit_left (some m) (some n) = omega arith

min_limit_right : (a b : Option ℕ) → NoLooser (min_limit a b) b
min_limit_right a none = tt
min_limit_right none (some n) = omega arith
min_limit_right (some m) (some n) = omega arith

Tighter-trans : (u v w : Values) → Tighter u v → Tighter v w → Tighter u w
Tighter-trans u v w h k = record {
  window_seconds = NoLooser-trans _ _ _ h.window_seconds k.window_seconds;
  soft_token_limit = NoLooser-trans _ _ _ h.soft_token_limit k.soft_token_limit;
  hard_token_limit = NoLooser-trans _ _ _ h.hard_token_limit k.hard_token_limit;
  max_concurrent_runs = NoLooser-trans _ _ _ h.max_concurrent_runs k.max_concurrent_runs;
  max_fan_out = NoLooser-trans _ _ _ h.max_fan_out k.max_fan_out;
  max_retries = NoLooser-trans _ _ _ h.max_retries k.max_retries;
  circuit_failure_threshold =
      NoLooser-trans _ _ _ h.circuit_failure_threshold k.circuit_failure_threshold;
  circuit_cooldown_seconds =
      NoLooser-trans _ _ _ h.circuit_cooldown_seconds k.circuit_cooldown_seconds;
}

Tighter-refl : (v : Values) → Tighter v v
Tighter-refl v = record {
  window_seconds = NoLooser-refl v.window_seconds;
  soft_token_limit = NoLooser-refl v.soft_token_limit;
  hard_token_limit = NoLooser-refl v.hard_token_limit;
  max_concurrent_runs = NoLooser-refl v.max_concurrent_runs;
  max_fan_out = NoLooser-refl v.max_fan_out;
  max_retries = NoLooser-refl v.max_retries;
  circuit_failure_threshold = NoLooser-refl v.circuit_failure_threshold;
  circuit_cooldown_seconds = NoLooser-refl v.circuit_cooldown_seconds;
}

narrow-Tighter_left : (v c : Values) → Tighter (narrow v c) v
unfolding narrow
narrow-Tighter_left v c = record {
  window_seconds = min_limit_left v.window_seconds c.window_seconds;
  soft_token_limit = min_limit_left v.soft_token_limit c.soft_token_limit;
  hard_token_limit = min_limit_left v.hard_token_limit c.hard_token_limit;
  max_concurrent_runs = min_limit_left v.max_concurrent_runs c.max_concurrent_runs;
  max_fan_out = min_limit_left v.max_fan_out c.max_fan_out;
  max_retries = min_limit_left v.max_retries c.max_retries;
  circuit_failure_threshold =
      min_limit_left v.circuit_failure_threshold c.circuit_failure_threshold;
  circuit_cooldown_seconds = min_limit_left v.circuit_cooldown_seconds c.circuit_cooldown_seconds;
}

narrow-Tighter_right : (v c : Values) → Tighter (narrow v c) c
unfolding narrow
narrow-Tighter_right v c = record {
  window_seconds = min_limit_right v.window_seconds c.window_seconds;
  soft_token_limit = min_limit_right v.soft_token_limit c.soft_token_limit;
  hard_token_limit = min_limit_right v.hard_token_limit c.hard_token_limit;
  max_concurrent_runs = min_limit_right v.max_concurrent_runs c.max_concurrent_runs;
  max_fan_out = min_limit_right v.max_fan_out c.max_fan_out;
  max_retries = min_limit_right v.max_retries c.max_retries;
  circuit_failure_threshold =
      min_limit_right v.circuit_failure_threshold c.circuit_failure_threshold;
  circuit_cooldown_seconds = min_limit_right v.circuit_cooldown_seconds c.circuit_cooldown_seconds;
}

narrow_all-Tighter : (v : Values) (bs : List Budget) → Tighter (narrow_all v bs) v
unfolding narrow_all
narrow_all-Tighter v [] = Tighter-refl v
narrow_all-Tighter v (b ∷ bs) =
    Tighter-trans _ _ _ (narrow_all-Tighter (narrow v (budget_values b)) bs)
      (narrow-Tighter_left v (budget_values b))

-- A bound below every limit that was folded in is below each of them.
narrow_all-Tighter-All :
    (u v : Values) (bs : List Budget)
    → Tighter u (narrow_all v bs)
    → All (λ b. Tighter u (budget_values b)) bs
unfolding narrow_all
narrow_all-Tighter-All u v [] h = tt
narrow_all-Tighter-All u v (b ∷ bs) h = (
  Tighter-trans _ _ _ h (
      Tighter-trans _ _ _ (narrow_all-Tighter (narrow v (budget_values b)) bs)
        (narrow-Tighter_right v (budget_values b))),
  narrow_all-Tighter-All u (narrow v (budget_values b)) bs h,
)

-- A count is at most the limit, where that is set; a limit of 0 reads as 1.
abbrev pub AtMost : ℕ → Option ℕ → Type 0
AtMost m none = Unit
AtMost m (some n) = m ≤ max 1 n

or_default-AtMost : (a b : Option ℕ) → NoLooser a b → AtMost (or_default a 1) b
or_default-AtMost a none h = tt
or_default-AtMost none (some n) h = omega arith
or_default-AtMost (some zero) (some n) h = omega arith
or_default-AtMost (some (suc m)) (some n) h = omega arith

or_else-NoLooser : (a b : Option ℕ) → NoLooser a b → NoLooser (some (or_else a 0)) b
or_else-NoLooser a none h = tt
or_else-NoLooser none (some n) h = omega arith
or_else-NoLooser (some m) (some n) h = h

-- The limits keep to a source of limits, its window apart.
pub record Respects (l : ControlLimits) (c : Values) : Type 0 where
  pub soft_token_limit : NoLooser l.soft_token_limit c.soft_token_limit
  pub hard_token_limit : NoLooser l.hard_token_limit c.hard_token_limit
  pub max_concurrent_runs : AtMost l.max_concurrent_runs c.max_concurrent_runs
  pub max_fan_out : AtMost l.max_fan_out c.max_fan_out
  pub max_retries : NoLooser (some l.max_retries) c.max_retries
  pub circuit_failure_threshold : AtMost l.circuit_failure_threshold c.circuit_failure_threshold
  pub circuit_cooldown_seconds : AtMost l.circuit_cooldown_seconds c.circuit_cooldown_seconds

to_limits-Respects :
    (settings : Settings) (v c : Values) → Tighter v c → Respects (to_limits settings v) c
unfolding to_limits
to_limits-Respects settings v c h = record {
  soft_token_limit = h.soft_token_limit;
  hard_token_limit = h.hard_token_limit;
  max_concurrent_runs = or_default-AtMost _ _ h.max_concurrent_runs;
  max_fan_out = or_default-AtMost _ _ h.max_fan_out;
  max_retries = or_else-NoLooser _ _ h.max_retries;
  circuit_failure_threshold = or_default-AtMost _ _ h.circuit_failure_threshold;
  circuit_cooldown_seconds = or_default-AtMost _ _ h.circuit_cooldown_seconds;
}

-- The limits of a dispatch keep to the settings, to every enabled budget whose scope matches, and
-- to the task's own budget, in each limit but the window; a count limit of 0 reads as 1.
pub resolve_limits-Respects :
    (budgets : List Budget) (task : Task) (worker profile : String) (settings : Settings)
    → let l = resolve_limits budgets task worker profile settings in
      Respects l (settings_values settings)
      × All
          (λ b. Respects l (budget_values b))
          (filter (budget_matches task worker profile settings) budgets)
      × Respects l (task_values task.budget)
unfolding resolve_limits
resolve_limits-Respects budgets task worker profile settings = (
  to_limits-Respects settings v _
      (Tighter-trans _ _ _ (narrow-Tighter_left u t) (narrow_all-Tighter _ bs)),
  All-map _ _ bs (λ b. to_limits-Respects settings v (budget_values b))
      (narrow_all-Tighter-All v _ bs (narrow-Tighter_left u t)),
  to_limits-Respects settings v t (narrow-Tighter_right u t),
)
  where
    bs : List Budget
    bs = filter (budget_matches task worker profile settings) budgets

    u : Values
    u = narrow_all (settings_values settings) bs

    t : Values
    t = task_values task.budget

    v : Values
    v = narrow u t
