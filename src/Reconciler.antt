-- ===== src/Reconciler.antt =====
-- The reconciler of packages/vuoro-reconciler: accepted intents become signed commits, pushed to a
-- branch of their own, with a pull request.
pub mod DiffPolicy
pub mod Intents
pub mod Verification
pub mod Acceptance
pub mod World
pub mod Authorise
pub mod Publish
pub mod Process
pub mod Journal
pub mod Currentness
pub mod Executor
