-- ===== src/Schemas.antt =====
-- The documents that the indexer stores (modules/indexer/schemas), and the job that a processor
-- gets (modules/indexer/types). Texts stay texts, a number that is never negative is a natural, a
-- Date is its milliseconds, and what may be null or missing is an Option. Mongoose's own `_id`,
-- `createdAt` and `updatedAt` are left out.
mod Records
mod Positions
mod Pairs
mod Swaps
mod Jobs
mod Events
pub use Records.*
pub use Positions.*
pub use Pairs.*
pub use Swaps.*
pub use Jobs.*
pub use Events.*
