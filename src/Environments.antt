-- ===== src/Environments.antt =====
-- `environment_services.py`: the deployments of the environments, from the local one of a task to
-- the simulated production, and the actions that change them.
pub mod Action
pub mod Install
pub mod Deploy
pub mod Promote
pub mod Rollback
pub mod Slots
pub mod Stale
pub mod Lineage
pub mod Ports
pub mod Governed
pub mod Service
pub mod Inversion
pub mod Approved
pub mod Refused
mod Tests
