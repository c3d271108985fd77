-- ===== src/Task/Terminal.antt =====
-- An invariant of the store: a run that has ended holds no lease and knows when it ended, no run has
-- two entries in the ledger; the runs and the approvals have distinct identifiers.
mod Steps
pub mod Additions
pub mod Leases
pub mod Operations
pub mod Requests
pub mod Handoffs
use hermes_orchestrator.Prelude.{ℕ, ◌≡◌, true, Bool, none, All, is_some}
use hermes_orchestrator.Models.Status.{is_terminal}
use hermes_orchestrator.Models.Rows.{Run}
use hermes_orchestrator.Store.Exec.{Db}
use hermes_orchestrator.Store.Fresh.{Fresh}
use hermes_orchestrator.Usage.Ledger.Once.{OneEntry}

-- What holds of a run with a terminal status.
pub record Ended (r : Run) : Type 0 where
  pub lease_owner : r.lease_owner ≡ none
  pub lease_expires_at : r.lease_expires_at ≡ none
  pub finished_at : is_some r.finished_at ≡ true

-- Every run whose status is terminal has ended.
abbrev pub EndedRun : Run → Type 0
EndedRun r = is_terminal r.status ≡ true → Ended r

abbrev pub TerminalRuns : Db → Type 0
TerminalRuns d = All EndedRun d.runs

abbrev pub OneEntryEach : Db → Type 0
OneEntryEach d = (r : ℕ) → OneEntry r d

-- The runs and the ledger are in order, and new rows get new identifiers.
abbrev pub Sound : Db → Type 0
Sound d = TerminalRuns d × OneEntryEach d

abbrev pub WellFormed : Db → Type 0
WellFormed d = Sound d × Fresh d
