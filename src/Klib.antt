-- ===== src/Klib.antt =====
-- klib.c: the library that the kernel modules link with.
mod Tests
pub mod Powerof
pub mod PhyPages
pub mod Snprintf
pub mod Delay
