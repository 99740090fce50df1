-- ===== src/Store.antt =====
-- internal/store: the collections and operations over the tree.
pub mod Namespace
pub mod Claims
pub mod Budget
pub mod Partition
mod Tests
