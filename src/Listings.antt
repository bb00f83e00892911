-- ===== src/Listings.antt =====
-- The listings and exports of server/src/models/expense.ts and auditLog.ts, with the handlers of
-- server/src/controllers/expenseController.ts, adminController.ts and approvalController.ts that
-- answer with them.
pub mod Like
pub mod Pages
pub mod Complete
pub mod Scope
pub mod Exports
pub mod Trail
pub mod Audited
mod Order
mod Statements
mod Model
mod Filters
mod Answers
unfoldable pub use Order.*
unfoldable pub use Statements.*
unfoldable pub use Model.*
unfoldable pub use Filters.*
unfoldable pub use Answers.*
