-- ===== src/Vas.antt =====
-- ch7/show_kernel_vas: the regions of the kernel's and of a process's address space.
mod Tests
pub mod Delta
pub mod Kernel
pub mod User
pub mod Exact
pub mod Once
