-- ===== src/Fs.antt =====
-- oscdfs, the simulated file system: oscdfs/include and oscdfs/src.
pub mod Layout
pub mod Bytes
pub mod State
pub mod Disk
pub mod Super
pub mod Bitmap
pub mod Inode
pub mod Blocks
pub mod Access
pub mod Files
pub mod Strings
pub mod Dir
pub mod Paths
pub mod Users
pub mod Calls
pub mod Answer
pub mod InodeData
pub mod Fuse
pub mod Format
pub mod Commands
pub mod Main
mod Tests
