-- ===== src/Btree.antt =====
-- internal/btree: the nodes of the copy-on-write B+tree.
pub mod Node
pub mod Sorted
pub mod Sizes
pub mod Cuts
pub mod Leaf
pub mod LeafMap
pub mod Split
pub mod SplitBranch
pub mod Even
pub mod Pages
pub mod Overflow
pub mod Tree
pub mod Remove
pub mod Scan
pub mod Shape
pub mod Flat
pub mod Keeps
pub mod Lookup
pub mod Walk
pub mod WalkBack
pub mod Writes
pub mod Plain
pub mod Place
pub mod Halves
pub mod Insert
pub mod InsertNode
pub mod PutTree
pub mod Whole
pub mod PutGet
pub mod Chain
pub mod LoadTotal
pub mod LedHead
mod Tests
mod TreeTests
