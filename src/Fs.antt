-- ===== src/Fs.antt =====
-- kernel/src/fs: the file systems.
pub mod Vfs
pub mod Devfs
pub mod Gpt
