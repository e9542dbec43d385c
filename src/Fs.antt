-- ===== src/Fs.antt =====
-- kernel/fs: the file system on the blocks of the disk.
pub mod BitMap
pub mod Inode
pub mod Directory
pub mod Content
pub mod Path
