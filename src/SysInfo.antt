-- ===== src/SysInfo.antt =====
-- ch5/min_sysinfo/min_sysinfo.c and minsysinfo of klib.c: the messages on the platform, put together
-- in a buffer of 128 bytes.
pub mod Texts
pub mod Messages
pub mod Linked
pub mod Fits
mod Tests
