-- ===== src/Refcount.antt =====
-- solutions_to_assgn/ch13/miscdrv_rdwr_refcount/miscdrv_rdwr_refcount.c: the `secret' driver with
-- spinlocks whose two counters of open files are `refcount_t`.
mod Ops
mod Same
pub mod Counts
pub mod Limits
mod Tests
unfoldable pub use Ops.*
