-- ===== src/Models/Status.antt =====
-- The status words of the rows, and the run transitions of task_services.py.
use hermes_orchestrator.Prelude.{ℕ, Bool, true, false, ◌||◌, String, List, [], ◌∷◌, ◌==◌}

pub data RunStatus : Type 0 where
  dispatching running awaiting_approval completed failed cancelled timed_out : RunStatus

pub data TaskStatus : Type 0 where
  pending dispatched in_progress awaiting_approval blocked completed : TaskStatus
  failed cancelled timed_out : TaskStatus

pub data ApprovalStatus : Type 0 where
  pending approved rejected expired : ApprovalStatus

pub data CircuitState : Type 0 where
  closed opened : CircuitState

pub data CostStatus : Type 0 where
  known estimated unknown : CostStatus

pub data QuotaStatus : Type 0 where
  available exhausted : QuotaStatus

-- The text of a run status, as it is written into event types and payloads.
abbrev pub run_status_text : RunStatus → String
run_status_text RunStatus.dispatching = "dispatching"
run_status_text RunStatus.running = "running"
run_status_text RunStatus.awaiting_approval = "awaiting_approval"
run_status_text RunStatus.completed = "completed"
run_status_text RunStatus.failed = "failed"
run_status_text RunStatus.cancelled = "cancelled"
run_status_text RunStatus.timed_out = "timed_out"

abbrev pub cost_status_text : CostStatus → String
cost_status_text CostStatus.known = "known"
cost_status_text CostStatus.estimated = "estimated"
cost_status_text CostStatus.unknown = "unknown"

abbrev pub quota_status_text : QuotaStatus → String
quota_status_text QuotaStatus.available = "available"
quota_status_text QuotaStatus.exhausted = "exhausted"

-- A number for each word: equal numbers are equal words.
abbrev run_status_code : RunStatus → ℕ
run_status_code RunStatus.dispatching = 0
run_status_code RunStatus.running = 1
run_status_code RunStatus.awaiting_approval = 2
run_status_code RunStatus.completed = 3
run_status_code RunStatus.failed = 4
run_status_code RunStatus.cancelled = 5
run_status_code RunStatus.timed_out = 6

abbrev task_status_code : TaskStatus → ℕ
task_status_code TaskStatus.pending = 0
task_status_code TaskStatus.dispatched = 1
task_status_code TaskStatus.in_progress = 2
task_status_code TaskStatus.awaiting_approval = 3
task_status_code TaskStatus.blocked = 4
task_status_code TaskStatus.completed = 5
task_status_code TaskStatus.failed = 6
task_status_code TaskStatus.cancelled = 7
task_status_code TaskStatus.timed_out = 8

abbrev approval_status_code : ApprovalStatus → ℕ
approval_status_code ApprovalStatus.pending = 0
approval_status_code ApprovalStatus.approved = 1
approval_status_code ApprovalStatus.rejected = 2
approval_status_code ApprovalStatus.expired = 3

abbrev pub run_status_eq : RunStatus → RunStatus → Bool
run_status_eq a b = run_status_code a == run_status_code b

abbrev pub task_status_eq : TaskStatus → TaskStatus → Bool
task_status_eq a b = task_status_code a == task_status_code b

abbrev pub approval_status_eq : ApprovalStatus → ApprovalStatus → Bool
approval_status_eq a b = approval_status_code a == approval_status_code b

abbrev pub run_status_in : RunStatus → List RunStatus → Bool
run_status_in s [] = false
run_status_in s (t ∷ ts) = run_status_eq s t || run_status_in s ts

-- `ACTIVE_RUN_STATUSES`
abbrev pub active_run_statuses : List RunStatus
active_run_statuses = RunStatus.dispatching ∷ RunStatus.running ∷ RunStatus.awaiting_approval ∷ []

-- `TERMINAL_RUN_STATUSES`
abbrev pub terminal_run_statuses : List RunStatus
terminal_run_statuses =
    RunStatus.completed ∷ RunStatus.failed ∷ RunStatus.cancelled ∷ RunStatus.timed_out ∷ []

-- `RUN_TRANSITIONS`, with the empty set for a status that it does not list
abbrev pub run_transitions : RunStatus → List RunStatus
run_transitions RunStatus.dispatching =
    RunStatus.running ∷ RunStatus.failed ∷ RunStatus.cancelled ∷ RunStatus.timed_out ∷ []
run_transitions RunStatus.running =
    RunStatus.awaiting_approval ∷ RunStatus.completed ∷ RunStatus.failed ∷ RunStatus.cancelled
    ∷ RunStatus.timed_out ∷ []
run_transitions RunStatus.awaiting_approval =
    RunStatus.dispatching ∷ RunStatus.failed ∷ RunStatus.cancelled ∷ RunStatus.timed_out ∷ []
run_transitions _ = []

abbrev pub is_active : RunStatus → Bool
is_active s = run_status_in s active_run_statuses

abbrev pub is_terminal : RunStatus → Bool
is_terminal s = run_status_in s terminal_run_statuses

abbrev pub is_open : CircuitState → Bool
is_open closed = false
is_open opened = true

abbrev pub is_exhausted : QuotaStatus → Bool
is_exhausted available = false
is_exhausted exhausted = true
