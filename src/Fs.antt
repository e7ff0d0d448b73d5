-- ===== src/Fs.antt =====
-- The filesystems: paths as C strings, and kernel/fs/ramfs.c.
pub mod Text
pub mod Path
pub mod Ramfs
pub mod Vfs
