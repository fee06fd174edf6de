-- ===== src/Tests.antt =====
-- Runs of the model on small data: every theorem on the program at an input where its hypotheses hold.
mod Samples
mod Assistance
mod Domain
mod Plans
mod Repositories
mod Services
mod Api
mod Evaluation
mod Intake
mod Delivery
mod Orchestration
