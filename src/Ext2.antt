-- ===== src/Ext2.antt =====
-- fs/ext2.c: the file system on an image in memory.
pub mod Bytes
pub mod Superblock
pub mod GroupDesc
pub mod Inode
pub mod Image
pub mod Bitmap
pub mod Blocks
pub mod Content
pub mod Directory
pub mod Paths
pub mod Mount
pub mod Entries
pub mod Listing
pub mod Calls
pub mod Tree
mod Examples
