-- ===== src/Tests.antt =====
-- Runs of the definitions on concrete data, and the theorems at concrete data.
mod Handling
mod Queue
mod Files
mod Reports
mod Lifecycle
mod Production
mod Working
mod Producing
mod Sorting
mod Linting
mod Transport
mod Enqueueing
