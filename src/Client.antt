-- ===== src/Client.antt =====
-- ch12/rdwr_test_secret.c, the program that writes and reads the secret, and its runs on the driver
-- with mutexes.
mod Main
mod Device
mod Stored
pub mod EndToEnd
mod Tests
unfoldable pub use Main.*
