-- ===== src/Libc.antt =====
-- The kernel's own C library, libc/: memory blocks and strings over a byte-addressed memory.
pub mod Memory
pub mod Block
pub mod Strings
mod Examples
