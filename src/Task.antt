-- ===== src/Task.antt =====
-- task_services.py: tasks, their runs and approvals, and the leases of the dispatchers.
pub mod Base
pub mod Lease
pub mod Create
pub mod Dispatch
pub mod Transition
pub mod Approval
pub mod Cancel
pub mod Expiry
pub mod Comment
pub mod Handoff
pub mod Terminal
pub mod Service
mod Tests
