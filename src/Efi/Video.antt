-- ===== src/Efi/Video.antt =====
-- efi-stage/efi_video.c: the framebuffer that the firmware set up.
use ech_os.Base.{ℕ, Option, none, some, if◌then◌else◌}
use ech_os.Efi.Firmware.{is_error, M, Mode, ret, print, ◌>>=◌, ◌>>◌, graphics}
use ech_os.Kernel.Colonel.{Framebuffer}

-- The mode that `gop` leads to; `none` where it is NULL.
unfoldable pub get_gop : M (Option Mode)
unfolding is_error
get_gop = do
  (status, mode) ← graphics
  if is_error status
      then (do print "Unable to locate Graphics Output Protocol\n"; ret none)
      else ret (some mode)

-- The fields that `framebuffer_init` writes; `font` and `font_size` stay as they were.
abbrev pub from_mode : Mode → (margin : ℕ) → Framebuffer → Framebuffer
from_mode mode margin fb = record fb {
  width = mode.horizontal_resolution;
  height = mode.vertical_resolution;
  pixels_per_scanline = mode.pixels_per_scan_line;
  buffer = mode.frame_buffer_base;
  margin = margin;
}

-- `none` where it reads through a NULL `gop`; `garbage` is what the local variable holds before.
unfoldable pub framebuffer_init : (margin : ℕ) → (garbage : Framebuffer) → M (Option Framebuffer)
unfolding get_gop
framebuffer_init margin garbage = do
  gop ← get_gop
  ret (elim gop [ none ↦ none | some mode ↦ some (from_mode mode margin garbage) ])
