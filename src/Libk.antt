-- ===== src/Libk.antt =====
-- libk: the runtime library that the kernel is written against.
pub mod Memory
pub mod Strings
pub mod Printing
pub mod Crypt
pub mod Ipc
