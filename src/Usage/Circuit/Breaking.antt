-- ===== src/Usage/Circuit/Breaking.antt =====
-- When a circuit opens (`record_run_outcome`): failures in a row with one code, and without one.
use hermes_orchestrator.Prelude.{
  ℕ, zero, suc, ◌≤◌, ◌<◌, ◌≡◌, ◌↔◌, ◌≢◌, String, Option, none, some, arith, eq_iff,
}
use hermes_orchestrator.Models.Status.{RunStatus, closed, opened}
use hermes_orchestrator.Models.Rows.{Run, CircuitBreaker}
use hermes_orchestrator.Models.Settings.{Settings}
use hermes_orchestrator.Store.Exec.{Session, ◌>>=◌}
use hermes_orchestrator.Store.Keeps.{LeavesLifecycle}
use hermes_orchestrator.Usage.Limits.{ControlLimits}
use hermes_orchestrator.Usage.Circuit.{next_circuit, record_run_outcome}

-- The circuit after `n` failed runs in a row with that error code.
pub after_failures : ControlLimits → ℕ → Option String → ℕ → CircuitBreaker → CircuitBreaker
after_failures limits now code zero c = c
after_failures limits now code (suc n) c =
    next_circuit limits now RunStatus.failed code (after_failures limits now code n c)

module _ (limits : ControlLimits) (now : ℕ) where
  record Counted (e : String) (n : ℕ) (c : CircuitBreaker) : Type 0 where
    count : c.consecutive_failures ≡ n
    code : c.last_error_code ≡ some e
    open_at : limits.circuit_failure_threshold ≤ n → c.state ≡ opened
    closed_below : n < limits.circuit_failure_threshold → c.state ≡ closed

  first_failure :
      (e : String) (c : CircuitBreaker)
      → e ≢ ""
      → c.state ≡ closed
      → c.last_error_code ≡ none
      → Counted e 1 (next_circuit limits now RunStatus.failed (some e) c)
  unfolding next_circuit
  first_failure e c ne s l = ground (arith, eq_iff e "")

  next_failure :
      (e : String) (n : ℕ) (c : CircuitBreaker)
      → Counted e n c
      → Counted e (suc n) (next_circuit limits now RunStatus.failed (some e) c)
  unfolding next_circuit
  next_failure e n c h = ground (arith, eq_iff e e)

  failures-Counted :
      (e : String) (n : ℕ) (c : CircuitBreaker)
      → e ≢ ""
      → c.state ≡ closed
      → c.last_error_code ≡ none
      → Counted e (suc n) (after_failures limits now (some e) (suc n) c)
  unfolding after_failures
  failures-Counted e zero c ne s l = first_failure e c ne s l
  failures-Counted e (suc n) c ne s l = next_failure e (suc n) _ (failures-Counted e n c ne s l)

  -- On a closed circuit without a code, `n` failures in a row with one code, `n` at least 1, count
  -- to `n`, and the circuit is open afterwards exactly when the threshold is at most `n`.
  pub failures_open :
      (e : String) (n : ℕ) (c : CircuitBreaker)
      → e ≢ ""
      → c.state ≡ closed
      → c.last_error_code ≡ none
      → 0 < n
      → let c' = after_failures limits now (some e) n c in
        (c'.consecutive_failures ≡ n)
        × ((c'.state ≡ opened) ↔ (limits.circuit_failure_threshold ≤ n))
  failures_open e zero c ne s l pos = absurd (omega arith)
  failures_open e (suc n) c ne s l pos = let k = failures-Counted e n c ne s l in ground (arith, k)

  -- A code that was seen, then failures that carry none: the count never leaves 1.
  record Stuck (c : CircuitBreaker) : Type 0 where
    count : c.consecutive_failures ≡ 1
    code : c.last_error_code ≡ some "failed"
    shut : c.state ≡ closed

  uncoded_failure :
      (e : String) (c : CircuitBreaker)
      → 1 < limits.circuit_failure_threshold
      → c.state ≡ closed
      → c.last_error_code ≡ some e
      → Stuck (next_circuit limits now RunStatus.failed none c)
  unfolding next_circuit
  uncoded_failure e c t s l = ground arith

  uncoded_failures-Stuck :
      (e : String) (n : ℕ) (c : CircuitBreaker)
      → 1 < limits.circuit_failure_threshold
      → c.state ≡ closed
      → c.last_error_code ≡ some e
      → Stuck (after_failures limits now none (suc n) c)
  unfolding after_failures
  uncoded_failures-Stuck e zero c t s l = uncoded_failure e c t s l
  uncoded_failures-Stuck e (suc n) c t s l =
      let k = uncoded_failures-Stuck e n c t s l in uncoded_failure "failed" _ t k.shut k.code

  -- A closed circuit that has seen some error code, with a threshold above 1, stays closed however
  -- many runs in a row then fail without an error code, and its count stays at 1.
  pub uncoded_failures_never_open :
      (e : String) (n : ℕ) (c : CircuitBreaker)
      → 1 < limits.circuit_failure_threshold
      → c.state ≡ closed
      → c.last_error_code ≡ some e
      → let c' = after_failures limits now none (suc n) c in
        (c'.state ≡ closed) × (c'.consecutive_failures ≡ 1)
  uncoded_failures_never_open e n c t s l =
      let k = uncoded_failures-Stuck e n c t s l in (k.shut, k.count)

pub record_run_outcome-LeavesLifecycle :
    (run : Run) (settings : Settings) (actor_id : String) (now : Option ℕ)
    → LeavesLifecycle (record_run_outcome run settings actor_id now)
unfolding record_run_outcome ◌>>=◌
record_run_outcome-LeavesLifecycle run settings actor_id now = record {
  tasks = λ s. ground arith;
  runs = λ s. ground arith;
  approvals = λ s. ground arith;
  committed = λ s. ground arith;
}

pub record_run_outcome_ledger :
    (run : Run) (settings : Settings) (actor_id : String) (now : Option ℕ) (s : Session)
    → (record_run_outcome run settings actor_id now s).1.current.usage_ledger
      ≡ s.current.usage_ledger
unfolding record_run_outcome ◌>>=◌
record_run_outcome_ledger run settings actor_id now s = ground arith

pub record_run_outcome_next_id :
    (run : Run) (settings : Settings) (actor_id : String) (now : Option ℕ) (s : Session)
    → s.current.next_id ≤ (record_run_outcome run settings actor_id now s).1.current.next_id
unfolding record_run_outcome ◌>>=◌
record_run_outcome_next_id run settings actor_id now s = ground arith
