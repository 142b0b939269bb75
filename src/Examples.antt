-- ===== src/Examples.antt =====
-- Concrete inputs for the components: tests, and the theorems at work.
mod Lease
mod Replay
mod RateLimit
mod Idempotency
mod Evidence
mod Journal
mod Executor
mod Reconciler
mod Runs
mod Schema
