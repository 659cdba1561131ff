-- ===== src/Stacking.antt =====
-- ch5/modstacking (and its variant solutions_to_assgn/ch5/modstacking2): a module that uses the
-- functions and the variable of another; ch5/modparams/modparams2: the check of a parameter.
mod Tests
pub mod Core
pub mod User
pub mod Params
