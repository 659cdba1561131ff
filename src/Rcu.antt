-- ===== src/Rcu.antt =====
-- ch13/rdwr_concurrent/3_demo_rdwr_rcu/miscdrv_rdwr_rcu.c: readers and writers of one object by RCU.
mod Code
mod Driver
mod Facts
mod Frame
mod Places
mod Moves
mod Publish
mod Steps
pub mod Grace
mod Tests
unfoldable pub use Code.*
