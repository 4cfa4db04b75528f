-- ===== src/Kernel.antt =====
-- kernel/: the parts of the kernel besides its physical memory manager.
pub mod Tables
pub mod Colonel
pub mod Start
pub mod Boot
