-- ===== src/Pending.antt =====
-- The pending approvals: `getPendingApprovals` of server/src/controllers/approvalController.ts with the
-- queries of server/src/models/expense.ts and user.ts that it runs.
mod Reports
mod Model
mod Handler
pub mod Rows
pub mod Shown
unfoldable pub use Reports.*
unfoldable pub use Model.*
unfoldable pub use Handler.*
