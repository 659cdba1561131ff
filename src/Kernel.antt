-- ===== src/Kernel.antt =====
-- What the drivers call in the kernel proper: the calls as a record of functions, and what their
-- documentation promises of them as a record of laws. C strings and `memset` are C's own.
mod Defs
mod Concrete
unfoldable pub use Defs.*
pub use Concrete.*
