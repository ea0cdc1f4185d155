-- ===== src/Fs.antt =====
-- xv6/fs.c and xv6/fs.h: the file system on one device. A disk is a function from blocks and offsets
-- to bytes: a block read by bread is its bytes on the disk, and bwrite with brelse puts bytes there,
-- as in Bio, the buffer cache.
mod Tests
pub mod Sample
pub mod Disk
pub mod Bitmap
pub mod Inode
pub mod Map
pub mod File
pub mod Truncate
pub mod Icache
pub mod Dir
pub mod Path
