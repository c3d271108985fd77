-- ===== src/Task/Tests.antt =====
-- The theorems on the task services at concrete states.
mod Runs
mod Requests
mod Service
mod Handoffs
