-- ===== src/Btree.antt =====
-- core/btree.c: the B-tree of fixed-size keys. `Node` is a node's pages, `Ops` what the functions do
-- to nodes in memory, `Search` the binary searches, `Disk` the form on disk, `Tree` whole trees.
pub mod Node
pub mod Ops
pub mod Search
pub mod Disk
pub mod Tree
mod Tests
