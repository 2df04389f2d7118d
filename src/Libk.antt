-- ===== src/Libk.antt =====
-- libk: the C library of the kernel. Its functions work on bytes in memory.
pub mod Memory
pub mod Mem
pub mod Malloc
pub mod Allocator
pub mod Printf
pub mod Strings
pub mod Stdio
pub mod Ctype
pub mod Threads
