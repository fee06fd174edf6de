-- ===== src/Worker.antt =====
-- apps/worker/src/processors: the jobs that execute plans and settle what is left open.
pub mod Providers
pub mod Recovery
pub mod Reconciliation
