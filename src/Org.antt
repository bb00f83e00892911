-- ===== src/Org.antt =====
-- The reporting hierarchy: the readers of server/src/models/user.ts that walk it, and
-- server/src/controllers/orgController.ts.
mod Tree
mod Handlers
pub mod Chains
pub mod Subtree
pub mod Access
unfoldable pub use Tree.*
unfoldable pub use Handlers.*
