-- ===== src/Handlers.antt =====
-- The request handlers of server/src/controllers/: the approval of expenses, and what a submitter does.
mod Approval
pub mod Committed
pub mod Decisions
pub mod Gate
pub mod Opening
pub mod Outcome
pub mod Reading
pub mod Guarantee
pub mod Service
pub mod Succeeds
mod Submitter
unfoldable pub use Approval.*
unfoldable pub use Submitter.*
