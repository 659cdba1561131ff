-- ===== src/BitOps.antt =====
-- ch13/1_rmw_atomic_bitops/rmw_atomic_bitops.c: one word, changed bit by bit.
mod Word
mod Tests
unfoldable pub use Word.*
