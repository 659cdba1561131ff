-- ===== src/Percpu.antt =====
-- ch13/3_lockfree/percpu/percpu_var.c: two kernel threads, each on its own CPU's copy of the data.
mod Defs
mod Tests
pub mod Final
unfoldable pub use Defs.*
