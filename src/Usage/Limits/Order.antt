-- ===== src/Usage/Limits/Order.antt =====
-- The order in which the database returns the budgets does not matter.
use mathlib.Core.Path.{ap₂}
use mathlib.Core.Logic.{∥∥₁_elim}
use mathlib.Core.List.{Perm, Permᴰ}
use hermes_orchestrator.Prelude.{
  ℕ, ◌≡◌, refl, ap, Option, List, ◌∷◌, arith, String, filter, Bool, if◌then◌else◌, ◌∙◌, sym,
}
use hermes_orchestrator.Models.Rows.{Task, Budget}
use hermes_orchestrator.Models.Settings.{Settings}
use hermes_orchestrator.Usage.Limits.{
  ControlLimits, Values, min_limit, settings_values, budget_values, task_values, narrow,
  budget_matches, narrow_all, to_limits, resolve_limits,
}

min_limit_swap : (a b c : Option ℕ) → min_limit (min_limit a b) c ≡ min_limit (min_limit a c) b
min_limit_swap a b c = ground arith

narrow_swap : (v a b : Values) → narrow (narrow v a) b ≡ narrow (narrow v b) a
unfolding narrow
narrow_swap v a b = λ i. record {
  window_seconds = min_limit_swap v.window_seconds a.window_seconds b.window_seconds i;
  soft_token_limit = min_limit_swap v.soft_token_limit a.soft_token_limit b.soft_token_limit i;
  hard_token_limit = min_limit_swap v.hard_token_limit a.hard_token_limit b.hard_token_limit i;
  max_concurrent_runs =
      min_limit_swap v.max_concurrent_runs a.max_concurrent_runs b.max_concurrent_runs i;
  max_fan_out = min_limit_swap v.max_fan_out a.max_fan_out b.max_fan_out i;
  max_retries = min_limit_swap v.max_retries a.max_retries b.max_retries i;
  circuit_failure_threshold =
      min_limit_swap v.circuit_failure_threshold a.circuit_failure_threshold
        b.circuit_failure_threshold i;
  circuit_cooldown_seconds =
      min_limit_swap v.circuit_cooldown_seconds a.circuit_cooldown_seconds
        b.circuit_cooldown_seconds i;
}

module _ (p : Budget → Bool) where
  -- One round of the loop, the scope test included.
  narrow_by : Values → Budget → Values
  narrow_by v b = if p b then narrow v (budget_values b) else v

  narrow_all-filter :
      (v : Values) (b : Budget) (bs : List Budget)
      → narrow_all v (filter p (b ∷ bs)) ≡ narrow_all (narrow_by v b) (filter p bs)
  unfolding narrow_all narrow_by
  narrow_all-filter v b bs = ground arith

  narrow_all-filter_two :
      (v : Values) (a b : Budget) (bs : List Budget)
      → narrow_all v (filter p (a ∷ b ∷ bs))
        ≡ narrow_all (narrow_by (narrow_by v a) b) (filter p bs)
  narrow_all-filter_two v a b bs =
      narrow_all-filter v a (b ∷ bs) ∙ narrow_all-filter (narrow_by v a) b bs

  narrow_by_swap :
      (v : Values) (a b : Budget) → narrow_by (narrow_by v a) b ≡ narrow_by (narrow_by v b) a
  unfolding narrow_by
  narrow_by_swap v a b = ground (arith, narrow_swap v (budget_values a) (budget_values b))

  narrow_all-Permᴰ :
      {cs bs : List Budget}
      → Permᴰ cs bs
      → (v : Values) → narrow_all v (filter p cs) ≡ narrow_all v (filter p bs)
  narrow_all-Permᴰ Permᴰ.nil v = refl
  narrow_all-Permᴰ (Permᴰ.cons {a = a} {b = b} {l₁ = l} {l₂ = m} e q) v =
      narrow_all-filter v a l
      ∙ ap (λ x. narrow_all (narrow_by v x) (filter p l)) e
      ∙ narrow_all-Permᴰ q (narrow_by v b)
      ∙ sym (narrow_all-filter v b m)
  narrow_all-Permᴰ (Permᴰ.swap {a = a} {b = b} {a' = a'} {b' = b'} {l = l} e f) v =
      narrow_all-filter_two v a b l
      ∙ ap (λ u. narrow_all u (filter p l)) (narrow_by_swap v a b)
      ∙ ap₂ (λ x y. narrow_all (narrow_by (narrow_by v x) y) (filter p l)) f e
      ∙ sym (narrow_all-filter_two v a' b' l)
  narrow_all-Permᴰ (Permᴰ.trans q r) v = narrow_all-Permᴰ q v ∙ narrow_all-Permᴰ r v

ControlLimits-set : IsSet ControlLimits
ControlLimits-set = hlevel

-- Whatever order the database returns the budgets in, the limits of a dispatch are the same.
pub resolve_limits-Perm :
    (task : Task) (worker profile : String) (settings : Settings) (cs bs : List Budget)
    → Perm cs bs
    → resolve_limits cs task worker profile settings
      ≡ resolve_limits bs task worker profile settings
unfolding resolve_limits
resolve_limits-Perm task worker profile settings cs bs q = ∥∥₁_elim q (ControlLimits-set _ _) λ d.
    ap (λ u. to_limits settings (narrow u (task_values task.budget)))
      (narrow_all-Permᴰ (budget_matches task worker profile settings) d (settings_values settings))
