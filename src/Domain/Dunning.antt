-- ===== src/Domain/Dunning.antt =====
-- libs/domain/src/dunning-graph.ts: the five steps that plan a recovery, over the state that they share.
pub mod State
pub mod Nodes
pub mod Runner
pub mod Outcome
pub use State.*
unfoldable pub use Nodes.*
unfoldable pub use Runner.*
