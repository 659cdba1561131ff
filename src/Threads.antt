-- ===== src/Threads.antt =====
-- The modules that list the processes and threads that are alive (ch6/foreach, ch13).
mod Tests
pub mod Format
pub mod Defs
pub mod Row
pub mod Buggy
pub mod Fixed
pub mod Rcu
pub mod Showall
pub mod Fits
pub mod Visits
pub mod Loops
pub mod Lists
pub mod Rounds
pub mod Foreach
