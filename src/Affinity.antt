-- ===== src/Affinity.antt =====
-- ch11/cpu_affinity/userspc_cpuaffinity.c: the tool that shows and sets a process's CPU mask.
mod Tool
pub mod Bits
mod Tests
unfoldable pub use Tool.*
