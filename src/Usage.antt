-- ===== src/Usage.antt =====
-- usage_services.py: budgets and limits, the controls before a dispatch, circuits and the ledger.
pub mod Limits
pub mod Circuit
pub mod Ledger
pub mod Controls
mod Tests
