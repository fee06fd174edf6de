-- ===== src/Api.antt =====
-- apps/api/src: the services of the API over the domain and the repositories.
pub mod Planning
pub mod Webhooks
pub mod Razorpay
pub mod Orchestrator
pub mod Events
pub mod Publisher
pub mod Assistance
