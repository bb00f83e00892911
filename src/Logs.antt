-- ===== src/Logs.antt =====
-- The shipping of log lines: server/src/config/pulsarLogsTransport.ts.
mod Row
mod Config
mod State
mod Shipper
pub mod Batch
pub mod Limits
pub mod Books
pub mod Sends
pub mod Answers
pub mod Shipping
pub mod Drained
unfoldable pub use Config.*
unfoldable pub use Row.*
unfoldable pub use State.*
unfoldable pub use Shipper.*
