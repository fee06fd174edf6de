-- ===== src/Contracts.antt =====
-- libs/contracts/src: the data that the parts of the program exchange.
pub mod Case
pub mod Events
pub mod Reasons
pub mod Plan
pub mod Policy
pub mod Assistance
pub use Case.*
pub use Events.*
pub use Reasons.*
pub use Plan.*
pub use Policy.*
