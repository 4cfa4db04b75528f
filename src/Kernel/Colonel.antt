-- ===== src/Kernel/Colonel.antt =====
-- kernel/kernel.h and kernel/framebuffer.h: what the boot stage hands to the kernel.
use ech_os.Base.{ℕ}
use ech_os.Pmm.{Pmm}

-- `framebuffer_t`; pointers are addresses.
pub record Framebuffer : Type 0 where
  pub width : ℕ
  pub height : ℕ
  pub pixels_per_scanline : ℕ
  pub margin : ℕ
  pub buffer : ℕ
  pub font : ℕ
  pub font_size : ℕ

pub record CpuInfo : Type 0 where
  pub count : ℕ
  pub apic_data : ℕ

-- `colonel_t`, with the PMM that `physical_memory` points at.
pub record Colonel : Type 0 where
  pub physical_memory : Pmm
  pub pml4 : ℕ
  pub heap : ℕ
  pub heap_size : ℕ
  pub gdt : ℕ
  pub rsdp2 : ℕ
  pub cpus : CpuInfo
  pub fb : Framebuffer
  pub mmap_key : ℕ
