-- ===== src/Sql.antt =====
-- What the SQL text of internal/store uses of its language: a table is the list of its rows in
-- rowid order, and a statement is a function on such lists.
mod Select
mod Order
mod Like
mod Unique
mod Update
mod Rows
unfoldable pub use Select.*
unfoldable pub use Order.*
unfoldable pub use Unique.*
unfoldable pub use Update.*
pub use Rows.*
unfoldable pub use Like.*
