-- ===== src/Rdwr.antt =====
-- ch13/rdwr_concurrent: readers and writers of one object, without locks and with a read-write lock.
mod Code
mod NoLocks
mod RwLock
pub mod Threads
pub mod Positions
mod Steps
pub mod Exclusion
pub mod Sums
pub mod Progress
pub mod Ends
mod Racy
mod RacySteps
pub mod Torn
mod Tests
unfoldable pub use Code.*
