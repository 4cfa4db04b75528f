-- ===== src/Heap/Backs.antt =====
-- What `get_heap` does to the frames and to the mapped addresses.
use ech_os.Base.{ℕ, ◌+◌, ◌-◌, ◌*◌, ◌/◌, ◌%◌, ◌^◌, ◌≤◌, ◌<◌, ◌==◌, u64, Run, ok, some}
use ech_os.Base.{◌≡◌, refl, ◌∙◌, ap, arith, Bool, true, false, Bool-cases, inl, inr}
use ech_os.Pmm.{Pmm}
use ech_os.Pmm.Block.{no_frame}
use ech_os.Pmm.Layout.{PmmIsValid, layout, is_free}
use ech_os.Pmm.FramesAllocate.{NoRun, TakenRun, in_run, no_frames, frames, frames_allocate_lem}
use ech_os.Paging.{Machine, Outcome, done, failed, map_range, page_size, read_write_bit}
use ech_os.Paging.Frames.{AllFrames}
use ech_os.Paging.MapRange.{MapsPages}
use ech_os.Paging.MapRange.Loop.{map_range-MapsPages}
use ech_os.Paging.Span.{low48, in_pages, in_pages-of}
use ech_os.Paging.Translate.{translate}
use ech_os.Paging.Tree.{Places, Tree}
use ech_os.Kernel.Start.Blocks.{AllLow}
use ech_os.Heap.{heap_pages, release_frames, settle, get_heap}
use ech_os.Heap.Frames.{free_below, frame_base-free, TakenRun-aligned}
use ech_os.Heap.Release.{GivenBack, release_frames-GivenBack}

-- The bytes from `paddr` on were free frames' and, with `free`, still are or again are; nothing
-- that was in use became free, and nothing outside the range is mapped otherwise.
pub record Left (m : Machine) (pml4 vaddr length paddr : ℕ) (free : Bool) (after : Machine)
    : Type 0 where
  pub valid : PmmIsValid after.physical_memory
  pub same_layout : layout after.physical_memory ≡ layout m.physical_memory
  pub was_free : (x : ℕ) → paddr ≤ x → x < paddr + length → is_free m.physical_memory x ≡ true
  pub is_now : (x : ℕ) → paddr ≤ x → x < paddr + length → is_free after.physical_memory x ≡ free
  pub none_freed :
      (x : ℕ) → is_free after.physical_memory x ≡ true → is_free m.physical_memory x ≡ true
  pub outside :
      (w : ℕ)
      → in_pages vaddr (vaddr + length) w ≡ false
      → translate after.words pml4 w ≡ translate m.words pml4 w

-- The three ends: no frames in a row that hold `length` bytes; frames that are given back; and
-- frames that the addresses are mapped to, byte by byte.
pub data Backing (m : Machine) (pml4 vaddr length : ℕ) (r : Run (Outcome × Machine)) : Type 0 where
  no_room :
      (count : ℕ)
      → length ≤ count * page_size
      → count * page_size < length + page_size
      → NoRun m.physical_memory count
      → r ≡ ok (failed, m)
      → Backing m pml4 vaddr length r
  given_back :
      (paddr : ℕ) (after : Machine)
      → Left m pml4 vaddr length paddr true after
      → r ≡ ok (failed, after)
      → Backing m pml4 vaddr length r
  backed :
      (paddr : ℕ) (after : Machine)
      → Left m pml4 vaddr length paddr false after
      → ((w : ℕ)
          → vaddr ≤ low48 w
          → low48 w < vaddr + length
          → translate after.words pml4 w ≡ some (paddr + (low48 w - vaddr)))
      → r ≡ ok (done, after)
      → Backing m pml4 vaddr length r

-- For a length of 64 bits the pages of a heap are the least number that holds it.
heap_pages_lem :
    (length : ℕ)
    → length < 2 ^ 64
    → (length ≤ heap_pages length * page_size)
      × (heap_pages length * page_size < length + page_size)
unfolding heap_pages
heap_pages_lem length h = (ground arith, ground arith)

-- Taking frames that no table has leaves the tables a tree.
Tree-taken :
    (m : Machine) (pml4 : ℕ) (place : Places) (count paddr : ℕ) (q : Pmm)
    → Tree m pml4 place
    → TakenRun m.physical_memory count paddr q
    → Tree (record m { physical_memory = q }) pml4 place
Tree-taken m pml4 place count paddr q tree t = record {
  root = tree.root;
  not_null = tree.not_null;
  aligned = tree.aligned;
  in_use = λ s l k x at h. ground (arith, t.now x, tree.in_use s l k x at h);
  child = tree.child;
  no_large = tree.no_large;
}

module _ (m : Machine) (pml4 vaddr length : ℕ) (place : Places)
    (whole : AllFrames (layout m.physical_memory)) (low : AllLow (layout m.physical_memory))
    (some_ : 0 < length) (aligned : vaddr % 4096 ≡ 0) (count : ℕ)
    (enough : length ≤ count * page_size) (least : count * page_size < length + page_size)
    (paddr : ℕ) (q : Pmm) (t : TakenRun m.physical_memory count paddr q) where
  taken_aligned : paddr % 4096 ≡ 0
  taken_aligned = TakenRun-aligned whole t (omega (arith, some_, enough))

  taken_low : paddr + count * page_size ≤ 2 ^ 48
  taken_low =
      let last : ℕ = paddr + count * page_size - 1 in
      let below =
        free_below m.physical_memory last low (t.was_free last (ground (arith, some_, enough))) in
      omega (arith, below, some_, enough)

  module _ {r : Run (Outcome × Machine)}
      (d : MapsPages
        (record m { physical_memory = q })
        pml4
        place
        vaddr
        paddr
        (vaddr + count * page_size)
        r) where
    range_outside :
        (w : ℕ)
        → in_pages vaddr (vaddr + length) w ≡ false
        → translate d.after.words pml4 w ≡ translate m.words pml4 w
    range_outside w h = d.outside w (ground (arith, h, aligned, least))

    settled-backed :
        d.outcome ≡ done → Backing m pml4 vaddr length (settle count paddr done d.after)
    unfolding settle
    settled-backed e =
        backed paddr d.after
          (record {
            valid = d.kept.valid;
            same_layout = d.kept.same_layout ∙ t.same_layout;
            was_free = λ x h k. t.was_free x (ground (arith, enough));
            is_now = λ x h k. elim (Bool-cases (is_free d.after.physical_memory x)) [
              | inl free ↦
                  let before = d.kept.shrinks x free in
                  let taken = t.now x in
                  let in_ : in_run paddr count x ≡ true = ground (arith, enough) in absurd (cc)
              | inr used ↦ used
            ];
            none_freed = λ x h. ground (arith, t.now x, t.was_free x, d.kept.shrinks x h);
            outside = range_outside;
          })
          (λ w h k.
            d.inside e w
              (in_pages-of vaddr (vaddr + count * page_size) w h (omega (arith, k, enough))))
          refl

    given :
        GivenBack d.after.physical_memory count paddr
          (release_frames count 0 paddr d.after.physical_memory)
    given =
        let from : paddr + 0 * page_size ≡ paddr = omega arith in
        rw from at (
          release_frames-GivenBack count 0 paddr d.after.physical_memory d.kept.valid
            (omega (arith, taken_low))
            (λ j h.
              let x : ℕ = paddr + (0 + j) * page_size in
              let start : x / 4096 * 4096 ≡ x = omega (arith, taken_aligned) in
              let same : layout d.after.physical_memory ≡ layout m.physical_memory =
                d.kept.same_layout ∙ t.same_layout in
              rw same (
                frame_base-free m.physical_memory x whole (t.was_free x (ground arith))
                ∙ ap some start)))

    settled-given_back : Backing m pml4 vaddr length (settle count paddr failed d.after)
    unfolding settle
    settled-given_back =
        given_back paddr (record d.after { physical_memory = given.after })
          (record {
            valid = given.valid;
            same_layout = given.same_layout ∙ d.kept.same_layout ∙ t.same_layout;
            was_free = λ x h k. t.was_free x (ground (arith, enough));
            is_now = λ x h k. given.now x ∙ ground (arith, enough);
            none_freed =
                λ x h. ground (arith, given.now x, t.now x, t.was_free x, d.kept.shrinks x);
            outside = range_outside;
          })
          (rw given.returns refl)

    settled : Backing m pml4 vaddr length (settle count paddr d.outcome d.after)
    settled = by_outcome d.outcome refl
      where
        by_outcome :
            (o : Outcome)
            → d.outcome ≡ o
            → Backing m pml4 vaddr length (settle count paddr o d.after)
        by_outcome done e = settled-backed e
        by_outcome failed e = settled-given_back

-- With page tables that are a tree, and a valid PMM of whole frames that ends within 48 bits, for a
-- length that is not 0 and a range that begins where a page does and ends with a page to spare below
-- 2^48, `get_heap` returns. It fails and changes nothing where no block has the least number of
-- frames in a row that hold the length. Otherwise it takes a run of free frames: either every address
-- of the range is translated to its byte of the run, which is no longer free, or it fails, and the
-- run is free again. Nothing that was in use becomes free, and no address outside the pages of the
-- range is translated otherwise.
pub get_heap-Backing :
    (m : Machine) (place : Places) (pml4 vaddr length : ℕ)
    → Tree m pml4 place
    → PmmIsValid m.physical_memory
    → AllFrames (layout m.physical_memory)
    → AllLow (layout m.physical_memory)
    → 0 < length
    → vaddr % page_size ≡ 0
    → vaddr + length + page_size ≤ 2 ^ 48
    → Backing m pml4 vaddr length (get_heap m pml4 vaddr length)
unfolding get_heap
get_heap-Backing m place pml4 vaddr length tree valid whole low some_ aligned fits =
    let count : ℕ = heap_pages length in
    let enough = heap_pages_lem length (omega (arith, fits)) in
    elim (frames_allocate_lem m.physical_memory count (omega (arith, some_, enough.0)) valid) [
      | no_frames none_ e ↦ rw e (no_room count enough.0 enough.1 none_ refl)
      | frames paddr q t e ↦
          let real : (paddr == no_frame) ≡ false = ground (arith, t.below) in
          let size : u64 (count * page_size) ≡ count * page_size = omega (arith, fits, enough.1) in
          let high =
            taken_low m pml4 vaddr length place whole low some_ aligned count enough.0 enough.1
              paddr q t in
          let start =
            taken_aligned m pml4 vaddr length place whole low some_ aligned count enough.0 enough.1
              paddr q t in
          let v : vaddr / 4096 * 4096 ≡ vaddr = omega (arith, aligned) in
          let p : paddr / 4096 * 4096 ≡ paddr = omega (arith, start) in
          let d =
            map_range-MapsPages (record m { physical_memory = q }) place pml4 vaddr paddr
              (count * page_size) read_write_bit (Tree-taken m pml4 place count paddr q tree t)
              t.valid (rw t.same_layout whole) (omega (arith, fits, enough.1)) (omega (arith, high))
              refl in
          let d' : MapsPages (record m { physical_memory = q }) pml4 place vaddr paddr
              (vaddr + count * page_size)
              (map_range (record m { physical_memory = q }) pml4 vaddr paddr (count * page_size)
                read_write_bit) =
            rw (v, p) at d in
          rw (e, real, size, d'.returns)
            (settled m pml4 vaddr length place whole low some_ aligned count enough.0 enough.1 paddr
              q t d')
    ]
