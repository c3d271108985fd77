-- ===== src/Policy.antt =====
-- policy.py: which role may do what, and which agents may talk to each other.
pub mod Permissions
pub mod Duties
pub mod Edges
mod Tests
