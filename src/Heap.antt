-- ===== src/Heap.antt =====
-- kernel/memory/heap.c: backing a range of virtual addresses with adjacent frames.
pub mod Frames
pub mod Release
pub mod Backs
use ech_os.Base.{ℕ, zero, suc, ◌+◌, ◌*◌, ◌/◌, ◌==◌, ltb, if◌then◌else◌, u64, Run, ok, ◌>>=◌}
use ech_os.Pmm.{Pmm, frames_allocate, frame_free}
use ech_os.Pmm.Block.{no_frame}
use ech_os.Paging.{Machine, Outcome, done, failed, map_range, page_size, read_write_bit}

-- The pages that hold `length` bytes.
unfoldable pub heap_pages : (length : ℕ) → ℕ
heap_pages length =
    let pages = length / page_size in
    if ltb (u64 (pages * page_size)) length then pages + 1 else pages

-- The loop that gives the frames from number `i` on back.
unfoldable pub release_frames : (left i paddr : ℕ) → Pmm → Run Pmm
release_frames zero i paddr blocks = ok blocks
release_frames (suc left) i paddr blocks = do
  blocks' ← frame_free blocks (u64 (paddr + u64 (i * page_size)))
  release_frames left (i + 1) paddr blocks'

-- What `get_heap` does with the result of `map_range`.
unfoldable pub settle : (pages paddr : ℕ) → Outcome → Machine → Run (Outcome × Machine)
unfolding release_frames
settle pages paddr done m = ok (done, m)
settle pages paddr failed m = do
  blocks ← release_frames pages 0 paddr m.physical_memory
  ok (failed, record m { physical_memory = blocks })

unfoldable pub get_heap : Machine → (pml4 vaddr length : ℕ) → Run (Outcome × Machine)
unfolding heap_pages settle
get_heap m pml4 vaddr length =
    let pages = heap_pages length in
    do
      (paddr, blocks) ← frames_allocate m.physical_memory pages
      if paddr == no_frame then ok (failed, record m { physical_memory = blocks }) else do
        (outcome, m') ←
            map_range (record m { physical_memory = blocks }) pml4 vaddr paddr
              (u64 (pages * page_size)) read_write_bit
        settle pages paddr outcome m'
