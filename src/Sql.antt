-- ===== src/Sql.antt =====
-- Running statements against the database: `stmt.QueryContext` and `stmt.ExecContext` of the
-- repositories of adapters/storage/postgres, and `db.BeginTx`, `tx.Commit`, `defer tx.Rollback()`.
-- The server may refuse any statement, a begin or a commit, which the code cannot foresee: `faults`
-- holds the answer to each statement to come: the text of a refusal, or none.
mod Monad
mod Table
pub mod Order
pub mod Keys
pub mod Clash
pub mod Rows
pub mod Laws
pub mod Hoare
pub mod Post
pub mod Keeps
unfoldable pub use Monad.*
unfoldable pub use Table.*
