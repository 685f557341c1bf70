-- ===== src/Tests.antt =====
-- Runs of the model on small inputs.
mod Sample
mod Tasks
mod Jobs
mod Pages
mod Guards
mod Recovery
mod Places
mod Runs
mod Staging
