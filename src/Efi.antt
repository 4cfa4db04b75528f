-- ===== src/Efi.antt =====
-- efi-stage/: the boot stage that runs on the firmware and hands over to the kernel.
pub mod Mmap
pub mod Firmware
pub mod Malloc
pub mod Pools
pub mod Fs
pub mod Video
pub mod Fresh
pub mod Main
pub mod Pmm
