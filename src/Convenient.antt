-- ===== src/Convenient.antt =====
-- convenient.h: PRINT_CTX, SHOW_DELTA and DELAY_LOOP (the SHOW_DELTA_* macros are in Vas/Delta).
pub mod Context
pub mod Delta
