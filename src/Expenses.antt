-- ===== src/Expenses.antt =====
-- server/src/models/expense.ts: rows and their UPDATEs, the SQL statements, and the operations.
mod Rows
mod Sql
mod Model
pub mod Frame
pub mod Fresh
pub mod Erased
pub mod Statements
pub mod Submission
pub mod Winner
pub mod Deletion
pub mod Resubmission
pub mod Operations
unfoldable pub use Rows.*
unfoldable pub use Sql.*
unfoldable pub use Model.*
