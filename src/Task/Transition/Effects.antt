-- ===== src/Task/Transition/Effects.antt =====
-- How a run and its task stand after a transition (`transition_run`), field by field.
use hermes_orchestrator.Prelude.{
  ℕ, ◌≡◌, ◌≢◌, refl, ap, sym, ◌∙◌, subst, inl, inr, some_and, Bool, Bool-cases, true, false, String,
  Option, none, some, arith, eq_iff, str_eq, or_else, if_true, if_false,
}
use hermes_orchestrator.Models.Json.{Fields, get, as_text}
use hermes_orchestrator.Models.Status.{RunStatus, TaskStatus, is_terminal, run_status_eq}
use hermes_orchestrator.Models.Rows.{Run}
use hermes_orchestrator.Task.Transition.{moved_run, next_task_status, handoff_status}

-- A run that came from another by a transition at that time.
pub record RunMoved (new_status : RunStatus) (code text : Option String) (now : ℕ) (r r' : Run)
    : Type 0 where
  pub status : r'.status ≡ new_status
  pub error_code : r'.error_code ≡ code
  pub summary : r'.summary ≡ text
  pub started : new_status ≡ RunStatus.running → r'.started_at ≡ some (or_else r.started_at now)
  pub waits : new_status ≢ RunStatus.running → r'.started_at ≡ r.started_at
  pub ended : is_terminal new_status ≡ true → (r'.finished_at ≡ some now) × (r'.lease_owner ≡ none)
  pub goes_on :
      is_terminal new_status ≡ false
      → (r'.finished_at ≡ r.finished_at) × (r'.lease_owner ≡ r.lease_owner)

-- The task's status after a completed run that left a handoff.
pub record TaskAfter (h : Fields) (is_pending : Bool) (t : TaskStatus) : Type 0 where
  pub blocked : as_text (get "outcome" h) ≡ some "blocked" → t ≡ TaskStatus.blocked
  pub reviewed :
      as_text (get "outcome" h) ≢ some "blocked"
      → is_pending ≡ true
      → t ≡ TaskStatus.awaiting_approval
  pub closed :
      as_text (get "outcome" h) ≢ some "blocked" → is_pending ≡ false → t ≡ TaskStatus.completed

-- The task's status for the run's, the run's handoff, and whether a completion approval is pending.
pub record TaskFollows (status : RunStatus) (handoff : Option Fields) (is_pending : Bool)
    (t : TaskStatus) : Type 0 where
  pub dispatching : status ≡ RunStatus.dispatching → t ≡ TaskStatus.dispatched
  pub running : status ≡ RunStatus.running → t ≡ TaskStatus.in_progress
  pub awaiting_approval : status ≡ RunStatus.awaiting_approval → t ≡ TaskStatus.awaiting_approval
  pub failed : status ≡ RunStatus.failed → t ≡ TaskStatus.failed
  pub cancelled : status ≡ RunStatus.cancelled → t ≡ TaskStatus.cancelled
  pub timed_out : status ≡ RunStatus.timed_out → t ≡ TaskStatus.timed_out
  pub completed : status ≡ RunStatus.completed → handoff ≡ none → t ≡ TaskStatus.completed
  pub handed :
      (h : Fields) → status ≡ RunStatus.completed → handoff ≡ some h → TaskAfter h is_pending t

not_running :
    (status : RunStatus)
    → status ≢ RunStatus.running
    → run_status_eq status RunStatus.running ≡ false
not_running RunStatus.dispatching h = refl
not_running RunStatus.running h = absurd (h refl)
not_running RunStatus.awaiting_approval h = refl
not_running RunStatus.completed h = refl
not_running RunStatus.failed h = refl
not_running RunStatus.cancelled h = refl
not_running RunStatus.timed_out h = refl

pub moved_run-RunMoved :
    (status : RunStatus) (code summary : Option String) (now : ℕ) (r : Run)
    → RunMoved status code summary now r (moved_run status code summary now r)
unfolding moved_run
moved_run-RunMoved status code summary now r = record {
  status = ground arith;
  error_code = ground arith;
  summary = ground arith;
  started = λ e. ap (λ st. (moved_run st code summary now r).started_at) e;
  waits = λ h. ground (arith, not_running status h);
  ended = λ e. ground arith;
  goes_on = λ e. ground arith;
}

blocked_handoff :
    (o : Option String) → o ≢ some "blocked" → some_and (λ s. str_eq s "blocked") o ≡ false
blocked_handoff none h = refl
blocked_handoff (some s) h = elim (Bool-cases (str_eq s "blocked")) [
  | inl same ↦ absurd (h (ap some (ground (arith, eq_iff s "blocked"))))
  | inr other ↦ other
]

handoff_status-TaskAfter :
    (h : Fields) (is_pending : Bool) → TaskAfter h is_pending (handoff_status h is_pending)
unfolding handoff_status
handoff_status-TaskAfter h is_pending = record {
  blocked = λ e. if_true _ _ _ (ap (some_and (λ s. str_eq s "blocked")) e);
  reviewed = λ o p. if_false _ _ _ (blocked_handoff _ o) ∙ if_true _ _ _ p;
  closed = λ o p. if_false _ _ _ (blocked_handoff _ o) ∙ if_false _ _ _ p;
}

pub next_task_status-TaskFollows :
    (status : RunStatus) (handoff : Option Fields) (is_pending : Bool)
    → TaskFollows status handoff is_pending (next_task_status status handoff is_pending)
unfolding next_task_status
next_task_status-TaskFollows status handoff is_pending = record {
  dispatching = λ e. ap (λ st. next_task_status st handoff is_pending) e;
  running = λ e. ap (λ st. next_task_status st handoff is_pending) e;
  awaiting_approval = λ e. ap (λ st. next_task_status st handoff is_pending) e;
  failed = λ e. ap (λ st. next_task_status st handoff is_pending) e;
  cancelled = λ e. ap (λ st. next_task_status st handoff is_pending) e;
  timed_out = λ e. ap (λ st. next_task_status st handoff is_pending) e;
  completed = λ e n. λ i. next_task_status (e i) (n i) is_pending;
  handed = λ h e n.
      subst (TaskAfter h is_pending) (λ i. next_task_status (sym e i) (sym n i) is_pending)
        (handoff_status-TaskAfter h is_pending);
}
