-- ===== src/SharedList.antt =====
-- ch13/2_list_demo_rdwrlock and ch13/3_lockfree/list_demo_rcu: the list of the kernel list demo,
-- shared by the calls of a driver, under a read-write lock and under RCU.
mod Code
mod RwLock
mod Rcu
mod Places
mod Frames
mod Steps
mod Keeps
pub mod Walks
pub mod Progress
pub mod Free
mod Tests
unfoldable pub use Code.*
