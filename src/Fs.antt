-- ===== src/Fs.antt =====
-- The file system server: inodes and blocks, protection, directories, files.
pub mod Volume
pub mod Sample
pub mod Inode
pub mod Protect
pub mod Dir
pub mod File
