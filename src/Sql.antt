-- ===== src/Sql.antt =====
-- The SQL that the store packages run, over a table as the list of its rows: WHERE, UPDATE,
-- UPDATE ... RETURNING, ORDER BY and LIMIT. The tables themselves are in Store.
mod Laws
mod Sorting
mod Lookup
mod Page
pub use Laws.*
pub use Sorting.*
pub use Lookup.*
pub use Page.*
mod Defs
unfoldable pub use Defs.{select, update_where, exists_where, count_where, insert_by, order_by}
pub use Defs.{first, IsSorted}
