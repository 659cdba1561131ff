-- ===== src/Slab.antt =====
-- solutions_to_assgn/ch9/slab_custom_mult, a hundred slab caches, and ch9/slab_custom, one.
mod Defs
pub mod Missing
pub mod Custom
mod Tests
unfoldable pub use Defs.*
