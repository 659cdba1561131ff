-- ===== src/Alloc.antt =====
-- The modules that take several pieces of kernel memory and give them back: ch8/lowlevel_mem,
-- ch8/page_exact_loop and ch9/vmalloc_demo.
pub mod Heap
mod Pages
mod Exact
mod Vmalloc
pub mod PagesUse
pub mod ExactUse
pub mod VmallocUse
mod Tests
