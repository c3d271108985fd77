-- ===== src/Models.antt =====
-- The rows of models.py, the status words that they hold, and the JSON values in their columns.
pub mod Json
pub mod Status
pub mod Rows
pub mod Environments
pub mod Requests
pub mod Settings
