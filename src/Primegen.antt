-- ===== src/Primegen.antt =====
-- ch11/cgroups/cpu_constrain/primegen/primegen.c: the prime numbers up to a limit.
mod Defs
mod Tests
pub mod Primes
unfoldable pub use Defs.*
