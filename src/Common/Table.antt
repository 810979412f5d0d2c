-- ===== src/Common/Table.antt =====
-- A database table as the list of its rows.
mod Rows
mod Counts
pub use Rows.*
pub use Counts.*
