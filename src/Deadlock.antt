-- ===== src/Deadlock.antt =====
-- ch13/4_lockdep/deadlock_eg_AB-BA/deadlock_eg_AB-BA.c: two kernel threads and two spinlocks.
mod Defs
mod Tests
pub mod Order
unfoldable pub use Defs.*
