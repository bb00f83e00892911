-- ===== src/Auth.antt =====
-- Who is asking: `req.user` (server/src/types/index.ts), roles (server/src/middleware/auth.ts and
-- rbac.ts), and the manager check (server/src/services/managerAuthorization.ts).
pub mod Access
pub mod Evidence
mod Principal
mod Roles
mod Graph
mod Manager
unfoldable pub use Principal.*
unfoldable pub use Roles.*
unfoldable pub use Graph.*
unfoldable pub use Manager.*
