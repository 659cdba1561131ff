-- ===== src/Kthreads.antt =====
-- The parts of ch13/3_lockfree/percpu/percpu_var.c and of
-- ch13/4_lockdep/deadlock_eg_AB-BA/deadlock_eg_AB-BA.c that make and stop their two threads.
mod Defs
mod Inits
pub mod Runs
mod Tests
unfoldable pub use Defs.*
unfoldable pub use Inits.*
