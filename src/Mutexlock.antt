-- ===== src/Mutexlock.antt =====
-- ch12/1_miscdrv_rdwr_mutexlock/miscdrv_rdwr_mutexlock.c: the `secret' driver under mutex locks.
mod Defs
mod Ops
pub mod Ready
pub mod Read
pub mod Write
pub mod Stays
pub mod Sessions
pub mod Init
pub mod RoundTrip
pub mod Register
pub mod Refines
mod Tests
unfoldable pub use Defs.*
unfoldable pub use Ops.*
