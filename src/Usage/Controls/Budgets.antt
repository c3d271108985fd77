-- ===== src/Usage/Controls/Budgets.antt =====
-- What a dispatch that the controls let through keeps to, and what a refusal leaves behind.
use hermes_orchestrator.Prelude.{
  ℕ, ◌+◌, ◌≤◌, ◌<◌, ◌≡◌, String, Option, none, some, arith, length, length-append, or_else,
}
use hermes_orchestrator.Models.Rows.{Task}
use hermes_orchestrator.Models.Settings.{Settings}
use hermes_orchestrator.Store.Exec.{Db, Session, Exception, ok, err, ◌>>=◌}
use hermes_orchestrator.Usage.Limits.{ControlLimits, resolve_limits}
use hermes_orchestrator.Usage.Controls.{
  Denial, attempts, active_runs, active_children, projected_tokens, load_denial, dispatch_denial,
  enforce_dispatch_controls,
}

-- The limit is set and the number is below it, or it is not set.
abbrev pub Below : ℕ → Option ℕ → Type 0
Below n none = Unit
Below n (some m) = n < m

-- The load at which a dispatch is let through.
pub record Admits (d : Db) (task : Task) (settings : Settings) (limits : ControlLimits) (now : ℕ)
    : Type 0 where
  pub retries : attempts d task ≤ limits.max_retries
  pub fan_out :
      (parent : ℕ)
      → task.parent_task_id ≡ some parent
      → active_children d parent < limits.max_fan_out
  pub concurrency : active_runs d < limits.max_concurrent_runs
  pub budget : Below (projected_tokens d settings limits now task) limits.hard_token_limit

-- What a denial raises.
pub raised : Option Denial → Option Exception
raised none = none
raised (some denial) = some (Exception.control denial.code denial.status_code denial.retry_after)

no_load_denial :
    (d : Db) (task : Task) (settings : Settings) (limits : ControlLimits) (now : ℕ)
    → load_denial d task settings limits now ≡ none
    → Admits d task settings limits now
unfolding load_denial
no_load_denial d task settings limits now h = record {
  retries = ground arith;
  fan_out = λ parent e. ground arith;
  concurrency = ground arith;
  budget = ground arith;
}

module _ (task : Task) (worker profile_id actor_id : String) (settings : Settings) where
  denial_none :
      (d : Db) (limits : ControlLimits) (now : ℕ)
      → dispatch_denial d task worker profile_id settings limits now ≡ none
      → Admits d task settings limits now
  unfolding dispatch_denial
  denial_none d limits now h = no_load_denial d task settings limits now (ground arith)

  resolved_limits :
      (now : Option ℕ) (s s' : Session) (limits : ControlLimits)
      → enforce_dispatch_controls task worker profile_id actor_id settings now s ≡ (ok limits, s')
      → limits ≡ resolve_limits s.current.budgets task worker profile_id settings
  unfolding enforce_dispatch_controls ◌>>=◌
  resolved_limits now s s' limits h = ground arith

  passed_checks :
      (now : Option ℕ) (s s' : Session) (limits : ControlLimits)
      → enforce_dispatch_controls task worker profile_id actor_id settings now s ≡ (ok limits, s')
      → dispatch_denial s.current task worker profile_id settings
          (resolve_limits s.current.budgets task worker profile_id settings)
          (or_else now s.clock)
        ≡ none
  unfolding enforce_dispatch_controls ◌>>=◌
  passed_checks now s s' limits h = ground arith

  only_audited :
      (now : Option ℕ) (s s' : Session) (limits : ControlLimits)
      → enforce_dispatch_controls task worker profile_id actor_id settings now s ≡ (ok limits, s')
      → (s'.current ≡ record s.current { audit_events = s'.current.audit_events })
        × (s'.committed ≡ s.committed)
  unfolding enforce_dispatch_controls ◌>>=◌
  only_audited now s s' limits h = ground arith

  -- The controls let a dispatch through only if the task's runs number at most the retries, and the
  -- active runs of its siblings, all active runs and the projected tokens are below the limits that
  -- the budgets resolve to; then nothing but audit events has been added, none of them stored yet.
  pub enforce-Admits :
      (now : Option ℕ) (s s' : Session) (limits : ControlLimits)
      → enforce_dispatch_controls task worker profile_id actor_id settings now s ≡ (ok limits, s')
      → (limits ≡ resolve_limits s.current.budgets task worker profile_id settings)
        × Admits s.current task settings limits (or_else now s.clock)
        × (s'.current ≡ record s.current { audit_events = s'.current.audit_events })
        × (s'.committed ≡ s.committed)
  enforce-Admits now s s' limits h =
      let same = resolved_limits now s s' limits h in
      let (c, k) = only_audited now s s' limits h in
      (
        same,
        rw same (denial_none s.current _ (or_else now s.clock) (passed_checks now s s' limits h)),
        c,
        k,
      )

  -- A refusal by the controls is stored: whatever was pending in the session is committed with one
  -- more audit event, and nothing else changes. The refusal is the first denial of the checks.
  pub enforce_refusal :
      (now : Option ℕ) (s s' : Session) (e : Exception)
      → enforce_dispatch_controls task worker profile_id actor_id settings now s ≡ (err e, s')
      → (s'.committed ≡ s'.current)
        × (s'.current ≡ record s.current { audit_events = s'.current.audit_events })
        × (length s'.current.audit_events ≡ length s.current.audit_events + 1)
        × (some e
            ≡ raised (
                dispatch_denial s.current task worker profile_id settings
                  (resolve_limits s.current.budgets task worker profile_id settings)
                  (or_else now s.clock)))
  unfolding enforce_dispatch_controls ◌>>=◌ raised
  enforce_refusal now s s' e h = grind (arith, length-append)
