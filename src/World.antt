-- ===== src/World.antt =====
-- The world: the observed frontiers, the commits and the append-only journal.
pub mod Frontier
pub mod Commit
pub mod Journal
pub mod Queries
pub mod Advance
pub mod Dense
pub mod Rows
pub mod Valid
pub mod Insert
pub mod Append
pub mod Batch
pub mod Total
pub mod Stream
pub mod Tests
