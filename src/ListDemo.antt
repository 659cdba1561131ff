-- ===== src/ListDemo.antt =====
-- ch6/list_demo/list_demo.c: nodes on a kernel list, added, shown, searched and freed.
mod Defs
mod Tests
pub mod Add
pub mod Find
pub mod Free
unfoldable pub use Defs.*
