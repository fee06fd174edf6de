-- ===== src/Persistence.antt =====
-- libs/persistence/src: the repositories over the database.
pub mod Intake
pub mod Ingestion
pub mod Rows
pub mod Evolution
pub mod Execution
pub mod Settlement
pub mod Locking
pub mod Planning
pub mod Outbox
pub mod Invocations
pub mod Captures
pub mod Steps
