-- ===== src/Spinlock.antt =====
-- ch12/2_miscdrv_rdwr_spinlock/miscdrv_rdwr_spinlock.c: the `secret' driver under spinlocks, with a
-- mutex around the copy to the user.
mod Defs
mod Ops
pub mod Same
pub mod Sessions
mod Tests
unfoldable pub use Defs.*
unfoldable pub use Ops.*
