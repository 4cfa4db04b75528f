-- ===== src/Efi/Pmm/Dump.antt =====
-- efi-stage/efi_pmm.c: `dump_pmm` and `compare_pmm`. Of a `Print` the log keeps the format.
use ech_os.Base.{[], ◌∷◌, length, ◌==◌, if◌then◌else◌}
use ech_os.Pmm.{Pmm}
use ech_os.Pmm.Block.{PmBlock}
use ech_os.Efi.Firmware.{M, ret, print, ◌>>◌}

unfoldable pub dump_blocks : Pmm → M (Unit {0})
dump_blocks [] = ret tt
dump_blocks (b ∷ bs) =
    let rest = dump_blocks bs in
    (do
      print
          "Block %d: Address - 0x%llx, Phys. address - 0x%llx, total frames - %d, free frames - %d\n"
      rest)

unfoldable pub dump_pmm : Pmm → M (Unit {0})
unfolding dump_blocks
dump_pmm pm = do
  print "Memory map at 0x%llx has %d blocks.\n"
  dump_blocks pm
  print "Total frames: %d\n"

-- A line where a field of block `i` differs.
unfoldable pub compare_block : (a b : PmBlock) → M (Unit {0})
compare_block a b = do
  (if a.frames_total == b.frames_total
      then ret tt
      else print "Block %d frames_total - a: %d, b: %d\n")
  if a.frames_free == b.frames_free then ret tt else print "Block %d frames_free - a: %d, b: %d\n"

-- The loop, over as many blocks as both have.
unfoldable pub compare_blocks : (a b : Pmm) → M (Unit {0})
unfolding compare_block
compare_blocks (a ∷ rest_a) (b ∷ rest_b) =
    let rest = compare_blocks rest_a rest_b in (do compare_block a b; rest)
compare_blocks _ _ = ret tt

unfoldable pub compare_pmm : (a b : Pmm) → M (Unit {0})
unfolding compare_blocks
compare_pmm a b = do
  print "Comparing physical memory maps at a:0x%llx and b:0x%llx\n"
  (if length a == length b then ret tt else print "Block count - a: %d, b: %d\n")
  compare_blocks a b
