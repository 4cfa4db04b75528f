-- ===== src/Paging/MapRange/Loop.antt =====
-- `map_range`, against the walk of the processor.
use ech_os.Bits.{bit_and-mask}
use ech_os.Bits.Logic.{bit_and-times}
use ech_os.Base.{
  ◌>>=◌, ℕ, zero, suc, ◌+◌, ◌-◌, ◌*◌, ◌/◌, ◌%◌, ◌^◌, ◌≤◌, ◌<◌, ◌==◌, ◌&&◌, leb, ltb, Bool, false,
}
use ech_os.Base.{
  ◌≡◌, arith, Bool-cases, inl, inr, lt-or-le, ◌⊎◌, Run, ok, bit_and, u64, sub64, not64,
}
use ech_os.Pmm.Layout.{PmmIsValid, layout}
use ech_os.Paging.{Machine, Outcome, done, failed, page_size, large_page_size, phys_addr_mask}
use ech_os.Paging.{map_page, try_large_page, map_loop, map_range}
use ech_os.Paging.Tree.{Places, Tree}
use ech_os.Paging.Frames.{AllFrames}
use ech_os.Paging.Span.{low48, not-in_pages}
use ech_os.Paging.MapRange.{MapsPages, MapsPages-refl}
use ech_os.Paging.MapRange.Round.{InBounds, after_page, after_large}

-- The test of `map_range` before it tries a large page.
abbrev large_fits : (v p end : ℕ) → Bool
large_fits v p end =
    (bit_and v (large_page_size - 1) == 0)
    && (bit_and p (large_page_size - 1) == 0)
    && leb large_page_size (sub64 end v)

module _ (pml4 v p end flags : ℕ) (go : Machine → (v p : ℕ) → Run (Outcome × Machine))
    (bounds : InBounds v p end) (more : v < end) (plain : bit_and flags phys_addr_mask ≡ 0)
    (step : (m : Machine) (place : Places) (s : ℕ)
      → Tree m pml4 place
      → PmmIsValid m.physical_memory
      → AllFrames (layout m.physical_memory)
      → 4096 ≤ s
      → InBounds (v + s) (p + s) end
      → MapsPages m pml4 place (v + s) (p + s) end (go m (v + s) (p + s))) where
  after_attempt :
      (m : Machine) (place : Places)
      → Tree m pml4 place
      → PmmIsValid m.physical_memory
      → AllFrames (layout m.physical_memory)
      → MapsPages m pml4 place v p end (do
        (large, m') ← try_large_page m pml4 v p end flags
        elim large [
          | done ↦ go m' (u64 (v + large_page_size)) (u64 (p + large_page_size))
          | failed ↦ do
            (small, m'') ← map_page m' pml4 v p flags
            elim small [
              | done ↦ go m'' (u64 (v + page_size)) (u64 (p + page_size))
              | failed ↦ ok (failed, m'')
            ]
        ])
  unfolding try_large_page
  after_attempt m place tree valid frames = elim (Bool-cases (large_fits v p end)) [
    | inr e ↦
        rw (try_large_page, e)
          (after_page pml4 v p end flags go bounds more plain step m place tree valid frames)
    | inl e ↦
        let v_mask = bit_and-mask 21 v in
        let p_mask = bit_and-mask 21 p in
        rw (try_large_page, e)
          (after_large pml4 v p end flags go bounds more plain step m place tree valid frames
            (ground arith) (ground arith) (ground arith))
  ]

-- No page begins between the end of the range and the next page.
beyond : (v end w : ℕ) → v % 4096 ≡ 0 → end ≤ v → (low48 w < v) ⊎ (end ≤ low48 w / 4096 * 4096)
beyond v end w a h = elim (lt-or-le (low48 w) v) [ inl l ↦ inl l | inr l ↦ inr (omega arith) ]

page_of : (w : ℕ) → w < 2 ^ 64 → bit_and w (not64 (page_size - 1)) ≡ w / 4096 * 4096
page_of w h =
    let shifted = bit_and-times 12 w (2 ^ 52 - 1) in
    let all = bit_and-mask 52 (w / 4096) in omega (arith, shifted, all)

map_loop-MapsPages :
    (left : ℕ) (m : Machine) (place : Places) (pml4 v p end flags : ℕ)
    → Tree m pml4 place
    → PmmIsValid m.physical_memory
    → AllFrames (layout m.physical_memory)
    → InBounds v p end
    → bit_and flags phys_addr_mask ≡ 0
    → end ≤ v + left * page_size
    → MapsPages m pml4 place v p end (map_loop (suc left) m pml4 v p end flags)
unfolding map_loop
map_loop-MapsPages zero m place pml4 v p end flags tree valid frames bounds plain enough =
    let e : ltb v end ≡ false = ground arith in
    rw (map_loop, e)
      (MapsPages-refl m pml4 place v p end tree valid
        (λ w. not-in_pages v end w (beyond v end w bounds.v_aligned (omega arith))))
map_loop-MapsPages (suc left) m place pml4 v p end flags tree valid frames bounds plain enough =
    elim (Bool-cases (ltb v end)) [
      | inr e ↦
          rw (map_loop, e)
            (MapsPages-refl m pml4 place v p end tree valid
              (λ w. not-in_pages v end w (beyond v end w bounds.v_aligned (ground arith))))
      | inl e ↦
          rw (map_loop, e)
            (after_attempt pml4 v p end flags
              (λ m' v' p'. map_loop (suc left) m' pml4 v' p' end flags) bounds (ground arith) plain
              (λ m' place' s tree' valid' frames' page bounds'.
                map_loop-MapsPages left m' place' pml4 (v + s) (p + s) end flags tree' valid'
                  frames' bounds' plain (omega (arith, enough, page)))
              m place tree valid frames)
    ]

-- On a valid PMM of whole frames below 2 ^ 52, with page tables that are a tree, a range below
-- 2 ^ 48, a target below 2 ^ 52 and flags that leave the address of an entry alone, `map_range`
-- returns. Where it succeeds, each page that the range touches is mapped to the page of the target
-- that lies as far from the first one. It fails only where no frame is left for a table, the frame
-- at address 0 is free, or a page of the range is mapped elsewhere. In each case every address
-- outside these pages is translated as before, and the page tables are a tree.
pub map_range-MapsPages :
    (m : Machine) (place : Places) (pml4 vaddr paddr length flags : ℕ)
    → Tree m pml4 place
    → PmmIsValid m.physical_memory
    → AllFrames (layout m.physical_memory)
    → vaddr + length ≤ 2 ^ 48
    → paddr + length + 4096 ≤ 2 ^ 52
    → bit_and flags phys_addr_mask ≡ 0
    → MapsPages m pml4 place
        (vaddr / 4096 * 4096)
        (paddr / 4096 * 4096)
        (vaddr + length)
        (map_range m pml4 vaddr paddr length flags)
unfolding map_range
map_range-MapsPages m place pml4 vaddr paddr length flags tree valid frames low target plain =
    let v = page_of vaddr (omega arith) in
    let p = page_of paddr (omega (arith, target)) in
    let end : u64 (vaddr + length) ≡ vaddr + length = omega arith in
    let bounds : InBounds (vaddr / 4096 * 4096) (paddr / 4096 * 4096) (vaddr + length) = record {
      v_aligned = omega arith;
      p_aligned = omega arith;
      v_low = low;
      p_low = λ more. omega (arith, target);
    } in
    rw (map_range, v, p, end)
      (map_loop-MapsPages _ m place pml4 _ _ _ flags tree valid frames bounds plain (omega arith))
