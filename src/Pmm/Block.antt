-- ===== src/Pmm/Block.antt =====
-- kernel/memory/physical.h and the functions of physical.c that work on one `pm_block`.
use ech_os.Base.{ℕ, zero, suc, ◌+◌, ◌*◌, ◌/◌, ◌%◌, ◌^◌, bit_and, bit_or, u64, sub64, not64}
use ech_os.Base.{all_ones, one_bit, ltb, ◌==◌, if◌then◌else◌, Bool, not, Option, none, some, List}
use ech_os.Base.{get_elem?, set, Run, ok, fault, ◌>>=◌}

abbrev pub frame_size : ℕ
frame_size = 4096

-- The address that stands for "no frame".
abbrev pub no_frame : ℕ
no_frame = all_ones

-- The words of a bitmap with a bit for each of `frame_count` frames.
abbrev pub frame_map_size : ℕ → ℕ
frame_map_size frame_count = u64 (frame_count + 63) / 64

pub data PmType : Type 0 where
  usable reclaimable acpi_reclaim acpi_nvs firmware mmio reserved : PmType

-- What a `map` pointer that is not NULL points at: `start` is the word of the shared storage where
-- the block's part begins, `words` is that part.
pub record Bitmap : Type 0 where
  pub start : ℕ
  pub words : List ℕ

pub record PmBlock : Type 0 where
  pub address : ℕ
  pub frames_total : ℕ
  pub frames_free : ℕ
  pub bitmap : Option Bitmap
  pub type : PmType
  pub attributes : ℕ

-- `map[entry]`; a fault where `map` is NULL or `entry` is out of range.
unfoldable pub read_word : Option Bitmap → ℕ → Run ℕ
read_word none entry = fault
read_word (some m) entry = elim (get_elem? m.words entry) [ none ↦ fault | some w ↦ ok w ]

-- `map[entry] = word`, after a read of the same place.
unfoldable pub write_word : Option Bitmap → ℕ → ℕ → Option Bitmap
write_word none entry word = none
write_word (some m) entry word = some (record m { words = set m.words entry word })

-- The inner loop of `frame_allocate_from_block`: the first clear bit of `word` from `bit` on.
unfoldable pub find_bit : (left bit word : ℕ) → Option ℕ
find_bit zero bit word = none
find_bit (suc left) bit word =
    let rest = find_bit left (bit + 1) word in
    if not (bit_and word (one_bit bit) == 0) then rest else some bit

-- Its body: set the bit, count the frame, and return its address.
unfoldable pub claim : PmBlock → (entry bit word : ℕ) → ℕ × PmBlock
claim block entry bit word = (
  u64 (block.address + u64 (u64 (entry * 64 + bit) * frame_size)),
  record block {
    bitmap = write_word block.bitmap entry (bit_or word (one_bit bit));
    frames_free = sub64 block.frames_free 1;
  },
)

-- Its outer loop, with `left` entries to go.
unfoldable pub scan_entries : (left entry : ℕ) → PmBlock → Run (ℕ × PmBlock)
scan_entries zero entry block = ok (no_frame, block)
scan_entries (suc left) entry block = do
  let rest = scan_entries left (entry + 1) block
  word ← read_word block.bitmap entry
  if word == all_ones
      then rest
      else elim (find_bit 64 0 word) [ none ↦ rest | some bit ↦ ok (claim block entry bit word) ]

unfoldable pub frame_allocate_from_block : PmBlock → Run (ℕ × PmBlock)
frame_allocate_from_block block = scan_entries (frame_map_size block.frames_total) 0 block

-- The part of `frame_free_from_block` behind its NULL test.
unfoldable pub release : PmBlock → (entry bit : ℕ) → Run PmBlock
release block entry bit = do
  word ← read_word block.bitmap entry
  ok (record block {
    frames_free =
        if not (bit_and word (one_bit bit) == 0)
        then u64 (block.frames_free + 1)
        else block.frames_free;
    bitmap = write_word block.bitmap entry (bit_and word (not64 (one_bit bit)));
  })

unfoldable pub frame_free_from_block : PmBlock → (address : ℕ) → Run PmBlock
frame_free_from_block block address =
    let frame_offset = sub64 address block.address / frame_size in
    elim block.bitmap [
      | none ↦ ok block
      | some _ ↦ release block (frame_offset / 64) (frame_offset % 64)
    ]

unfoldable pub frame_is_used : PmBlock → (frame : ℕ) → Run Bool
frame_is_used block frame = do
  word ← read_word block.bitmap (frame / 64)
  ok (not (bit_and (word / 2 ^ (frame % 64)) 1 == 0))

-- The search of `frames_allocate_from_block` at `frame`, with `left` frames to go and a run of
-- `run_length` free frames from `run_start` behind it.
unfoldable pub find_run : PmBlock → (count left frame run_start run_length : ℕ) → Run (Option ℕ)
find_run block count zero frame run_start run_length = ok none
find_run block count (suc left) frame run_start run_length = do
  used ← frame_is_used block frame
  let start : ℕ = if run_length == 0 then frame else run_start
  let go_on =
      find_run block count left (frame + 1) (if used then run_start else start)
        (if used then 0 else run_length + 1)
  if used then go_on else (if ltb (run_length + 1) count then go_on else ok (some start))

-- The loop that marks the frames from `f` on.
unfoldable pub mark_frames : (left f : ℕ) → PmBlock → Run PmBlock
mark_frames zero f block = ok block
mark_frames (suc left) f block = do
  word ← read_word block.bitmap (f / 64)
  mark_frames left (f + 1)
      (record block { bitmap = write_word block.bitmap (f / 64) (bit_or word (one_bit (f % 64))) })

-- What `frames_allocate_from_block` does with the run that it found: mark its frames, count them,
-- and return the address of the first.
unfoldable pub claim_run : PmBlock → (run_start count : ℕ) → Run (ℕ × PmBlock)
claim_run block run_start count = do
  marked ← mark_frames count run_start block
  ok (
    u64 (marked.address + u64 (run_start * frame_size)),
    record marked { frames_free = sub64 marked.frames_free count },
  )

unfoldable pub frames_allocate_from_block : PmBlock → (count : ℕ) → Run (ℕ × PmBlock)
frames_allocate_from_block block count = do
  found ← find_run block count block.frames_total 0 0 0
  elim found [ none ↦ ok (no_frame, block) | some run_start ↦ claim_run block run_start count ]
