-- ===== src/Core.antt =====
-- core/: the parts of the kernel module beside the B-tree.
pub mod Balloc
pub mod Pages
pub mod Super
pub mod Inode
pub mod Registry
pub mod Net
