-- ===== src/Graph.antt =====
-- The client of Microsoft Graph: server/src/services/graphApi.ts over server/src/services/
-- cacheService.ts. HTTP (axios), the cache (node-cache), URLs and hashes are third-party packages and
-- the runtime's: they are parameters.
mod Http
pub mod Retry
mod Paging
mod Client
pub mod Collected
pub mod Sends
pub mod Granted
pub mod Fresh
pub mod Api
unfoldable pub use Http.*
unfoldable pub use Paging.*
unfoldable pub use Client.*
