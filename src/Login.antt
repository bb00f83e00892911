-- ===== src/Login.antt =====
-- Who signs in: server/src/middleware/auth.ts with the security events of
-- server/src/models/securityEvent.ts and the users that server/src/models/user.ts stores.
pub mod Outside
mod Accounts
mod Sessions
mod Claims
mod Authenticate
pub mod Local
pub mod Entra
pub mod Identity
unfoldable pub use Outside.*
unfoldable pub use Accounts.*
unfoldable pub use Sessions.*
unfoldable pub use Claims.*
unfoldable pub use Authenticate.*
