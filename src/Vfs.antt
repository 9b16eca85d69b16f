-- ===== src/Vfs.antt =====
-- src/vfs: the inodes of the served tree, and the filter of Apple metadata.
pub mod Filter
pub mod State
pub mod Inode
