-- ===== src/Domain.antt =====
-- libs/domain/src: the rules of revenue recovery.
pub mod Errors
pub mod StateMachine
pub mod Money
pub mod Time
pub mod Qualification
pub mod Text
pub mod Diagnosis
pub mod Propensity
pub mod Intervention
pub mod Policy
pub mod Dunning
pub mod Planning
