-- ===== src/Db.antt =====
-- database/schema.sql and server/src/config/db.ts as the models use them: the tables, one round trip
-- to the server, and a transaction on one connection.
--
-- An asynchronous operation takes a world and gives a result and a world. Each await of a pooled call
-- takes the next entry of the schedule: other requests commit what they like, and the call may fail.
-- Inside a transaction the row lock keeps the others out, and a statement may still fail.
mod Table
mod Monad
mod History
mod Guarantee
pub mod Atomic
pub mod Runs
pub mod Total
pub mod Alone
pub mod Moments
pub use Table.*
unfoldable pub use Monad.*
pub use History.*
pub use Guarantee.*
