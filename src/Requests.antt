-- ===== src/Requests.antt =====
-- What a request carries, read and checked: server/src/utils/requestParsing.ts, pagination.ts and
-- sorting.ts.
mod Query
mod Pagination
mod Sorting
pub mod Numbers
pub mod Bounds
pub mod Columns
unfoldable pub use Query.*
unfoldable pub use Pagination.*
unfoldable pub use Sorting.*
