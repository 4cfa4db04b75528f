-- ===== src/Paging/Range.antt =====
-- `map_range` ends within its rounds.
use ech_os.Base.{◌>>=◌, ℕ, zero, suc, ◌+◌, ◌-◌, ◌*◌, ◌/◌, ◌^◌, ◌≤◌, ◌<◌, ◌==◌, ltb, leb, ◌&&◌}
use ech_os.Base.{Bool-cases, inl, inr, false, Run, ok, u64, bit_and, ◌≡◌, arith, sub64, not64}
use ech_os.Paging.{Machine, Outcome, done, failed, map_loop, map_range, map_page, try_large_page}
use ech_os.Paging.{large_page_size, page_size}
use ech_os.Paging.Kept.{Returns, Returns-ok, Returns-bind, map_page-Returns, map_large_page-Returns}
use ech_os.Pmm.{Pmm}
use ech_os.Pmm.Layout.{PmmIsValid}

-- The large page is tried only where the rest of the range covers it.
data Try (m : Machine) (vaddr end : ℕ) : Run (Outcome × Machine) → Type 0 where
  fits :
      {r : Run (Outcome × Machine)}
      → large_page_size ≤ sub64 end vaddr
      → Returns m.physical_memory r
      → Try m vaddr end r
  misses : Try m vaddr end (ok (failed, m))

try_large_page-Try :
    (m : Machine) (pml4 vaddr paddr end flags : ℕ)
    → PmmIsValid m.physical_memory
    → Try m vaddr end (try_large_page m pml4 vaddr paddr end flags)
unfolding try_large_page
try_large_page-Try m pml4 vaddr paddr end flags v =
    elim (Bool-cases (
      (bit_and vaddr (large_page_size - 1) == 0)
      && (bit_and paddr (large_page_size - 1) == 0)
      && leb large_page_size (sub64 end vaddr))) [
        | inl e ↦ rw e (fits (ground arith) (map_large_page-Returns m pml4 vaddr paddr flags v))
        | inr e ↦ rw e misses
      ]

pub Returns-cases :
    {p : Pmm} (o : Outcome) {r s : Run (Outcome × Machine)}
    → Returns p r
    → Returns p s
    → Returns p (elim o [ done ↦ r | failed ↦ s ])
Returns-cases done r s = r
Returns-cases failed r s = s

-- A round with pages left: `go` is the rounds behind it, which have `room` bytes.
module _ (pml4 vaddr paddr end flags room : ℕ) (go : Machine → (v p : ℕ) → Run (Outcome × Machine))
    (more : vaddr < end) (top : end ≤ 2 ^ 64 - page_size) (enough : end ≤ vaddr + page_size + room)
    (step : (m : Machine) (v p : ℕ)
      → PmmIsValid m.physical_memory
      → end ≤ v + room
      → Returns m.physical_memory (go m v p)) where
  after_page :
      (m : Machine)
      → PmmIsValid m.physical_memory
      → Returns m.physical_memory (do
        (small, m') ← map_page m pml4 vaddr paddr flags
        elim small [
          | done ↦ go m' (u64 (vaddr + page_size)) (u64 (paddr + page_size))
          | failed ↦ ok (failed, m')
        ])
  after_page m v = Returns-bind _ (map_page-Returns m pml4 vaddr paddr flags v) (λ small m' v'.
      Returns-cases small
        (step m' (u64 (vaddr + page_size)) (u64 (paddr + page_size)) v'
          (omega (arith, top, enough, more)))
        (Returns-ok failed m' v'))

  after_attempt :
      (m : Machine) {r : Run (Outcome × Machine)}
      → PmmIsValid m.physical_memory
      → Try m vaddr end r
      → Returns m.physical_memory (do
        (large, m') ← r
        elim large [
          | done ↦ go m' (u64 (vaddr + large_page_size)) (u64 (paddr + large_page_size))
          | failed ↦ do
            (small, m'') ← map_page m' pml4 vaddr paddr flags
            elim small [
              | done ↦ go m'' (u64 (vaddr + page_size)) (u64 (paddr + page_size))
              | failed ↦ ok (failed, m'')
            ]
        ])
  after_attempt m v misses = after_page m v
  after_attempt m v (fits covers s) = Returns-bind _ s (λ large m' v'.
      Returns-cases large
        (step m' (u64 (vaddr + large_page_size)) (u64 (paddr + large_page_size)) v'
          (omega (arith, top, enough, more, covers)))
        (after_page m' v'))

map_loop-Returns :
    (left : ℕ) (m : Machine) (pml4 vaddr paddr end flags : ℕ)
    → PmmIsValid m.physical_memory
    → end ≤ 2 ^ 64 - page_size
    → end ≤ vaddr + left * page_size
    → Returns m.physical_memory (map_loop (suc left) m pml4 vaddr paddr end flags)
unfolding map_loop
map_loop-Returns zero m pml4 vaddr paddr end flags v top enough =
    let e : ltb vaddr end ≡ false = ground arith in rw (map_loop, e) (Returns-ok done m v)
map_loop-Returns (suc left) m pml4 vaddr paddr end flags v top enough =
    elim (Bool-cases (ltb vaddr end)) [
      | inr e ↦ rw (map_loop, e) (Returns-ok done m v)
      | inl e ↦
          rw (map_loop, e)
            (after_attempt pml4 vaddr paddr end flags (left * page_size)
              (λ m' v' p'. map_loop (suc left) m' pml4 v' p' end flags) (ground arith) top
              (omega arith)
              (λ m' v' p' w enough'. map_loop-Returns left m' pml4 v' p' end flags w top enough') m
              v (try_large_page-Try m pml4 vaddr paddr end flags v))
    ]

-- On a valid PMM and a range that ends before the last page of the address space `map_range`
-- returns, with or without success, and leaves a valid PMM of the same blocks, in which it freed
-- nothing.
pub map_range_lem :
    (m : Machine) (pml4 vaddr paddr length flags : ℕ)
    → PmmIsValid m.physical_memory
    → u64 (vaddr + length) ≤ 2 ^ 64 - page_size
    → Returns m.physical_memory (map_range m pml4 vaddr paddr length flags)
unfolding map_range
map_range_lem m pml4 vaddr paddr length flags v top =
    let first : ℕ = bit_and vaddr (not64 (page_size - 1)) in
    let end : ℕ = u64 (vaddr + length) in
    let enough : end ≤ first + ((end - first) / page_size + 1) * page_size = omega arith in
    map_loop-Returns ((end - first) / page_size + 1) m pml4 first
      (bit_and paddr (not64 (page_size - 1))) end flags v top enough
