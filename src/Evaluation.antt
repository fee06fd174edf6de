-- ===== src/Evaluation.antt =====
-- libs/evaluation/src: how well the program recovers payments, against two simpler strategies.
pub mod Dataset
pub mod Strategies
pub mod Simulation
pub mod Metrics
