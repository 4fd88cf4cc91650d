-- ===== src/Store.antt =====
-- The rows of one tenant and its transactions: src/server/db/client.ts (`withTenant`),
-- src/server/audit/index.ts, and the tables that the modules under src/server/modules share.
-- Row-level security shows a transaction the rows of its own tenant alone, so a `Db` holds one
-- tenant. Identifiers, digests and tokens are compared for equality only, and are numbers; a
-- `Date` is a number of milliseconds, and a Unix time a number of seconds.
mod Rows
mod Transaction
mod Laws
mod Frames
unfoldable pub use Rows.*
pub use Laws.*
pub use Frames.*
unfoldable pub use Transaction.*
