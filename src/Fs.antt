-- ===== src/Fs.antt =====
-- src/fs/fs.h and src/fs/fs.c: the file system, an ext2-like layout of one block group.
-- Structures are objects in memory, read and written by little-endian fields, as the C code does
-- by casting block buffers. The disk's storage is passed along. A local array that C leaves
-- uninitialised is taken to hold zeros where a block read overwrites it before it is used, when
-- the block lies on the disk.
pub mod Layout
pub mod Bitmap
pub mod Inodes
pub mod Counts
pub mod Directory
pub mod Names
pub mod Files
pub mod Format
mod Tests
