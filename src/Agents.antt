-- ===== src/Agents.antt =====
-- The requests for agents: their decisions (`services.py`), the policy that decides them
-- (`agent_policy.py`) and the provisioning that applies them (`provisioning_services.py`).
pub mod Requests
pub mod Application
pub mod Rows
pub mod Duties
pub mod Profiles
pub mod Evaluation
pub mod Policy
pub mod Payload
pub mod Edges
pub mod Provisioning
pub mod Provision
pub mod Process
pub mod Removal
pub mod Service
pub mod Retry
mod Tests
