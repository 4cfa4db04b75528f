-- ===== src/Paging/MapPage/Large.antt =====
-- `map_large_page`, against the walk of the processor.
use ech_os.Base.{ℕ, ◌+◌, ◌%◌, ◌==◌}
use ech_os.Base.{◌≡◌, arith, Bool-cases, inl, inr, ok, bit_and, bit_or}
use ech_os.Pmm.Layout.{PmmIsValid, layout}
use ech_os.Paging.{Machine, has_bit, get_table, present_bit, page_size_bit, entry_of}
use ech_os.Paging.{put_large_page, map_large_page}
use ech_os.Paging.{phys_addr_mask}
use ech_os.Paging.Entries.{large_leaf-present, large_leaf-page_size, get_table-large_leaf}
use ech_os.Paging.Translate.{physical, span, slot, index_of-slot}
use ech_os.Paging.Tree.{Places, Tree, Reaches}
use ech_os.Paging.Frames.{AllFrames}
use ech_os.Paging.Grow.{Grown}
use ech_os.Paging.Directory.{directory_of-NextTable, AllFrames-Kept}
use ech_os.Paging.MapPage.{Maps, Maps-failed, Maps-put_entry}

module _ {m n : Machine} {pml4 : ℕ} {place places : Places} (g : Grown m n pml4 place places)
    (v pd paddr flags : ℕ) (way : Reaches n.words pml4 v 1 pd)
    (frames : AllFrames (layout n.physical_memory)) (plain : bit_and flags phys_addr_mask ≡ 0) where
  Maps-put_large_page :
      get_table paddr % 0x200000 ≡ 0
      → Maps m pml4 place 1 v (get_table paddr) (ok (put_large_page n pd v paddr flags))
  unfolding put_large_page
  Maps-put_large_page even =
      let e' =
        bit_or (bit_or (bit_or (bit_and paddr phys_addr_mask) flags) present_bit) page_size_bit in
      let right : (w : ℕ) → physical 1 e' w ≡ get_table paddr + w % span 1 =
        λ w. omega (arith, get_table-large_leaf paddr flags plain, even) in
      let mapped =
        Maps-put_entry g 1 v pd e' (get_table paddr) way
          (large_leaf-present paddr flags, large_leaf-page_size paddr flags) (omega arith) right in
      rw (index_of-slot v).2 (elim (Bool-cases (has_bit (entry_of n pd (slot 1 v)) present_bit)) [
        | inr absent ↦ rw absent mapped
        | inl p ↦ elim (Bool-cases (has_bit (entry_of n pd (slot 1 v)) page_size_bit)) [
          | inr table ↦ rw (p, table) (Maps-failed 1 v (get_table paddr) g (λ z. cc))
          | inl large ↦ rw (p, large) mapped
        ]
      ])

pub map_large_page_lem :
    (m : Machine) (pml4 : ℕ) (place : Places) (vaddr paddr flags : ℕ)
    → Tree m pml4 place
    → PmmIsValid m.physical_memory
    → AllFrames (layout m.physical_memory)
    → bit_and flags phys_addr_mask ≡ 0
    → get_table paddr % 0x200000 ≡ 0
    → Maps m pml4 place 1 vaddr (get_table paddr) (map_large_page m pml4 vaddr paddr flags)
unfolding map_large_page
map_large_page_lem m pml4 place vaddr paddr flags tree valid frames plain even =
    let d = directory_of-NextTable m pml4 place vaddr flags tree valid frames in
    rw d.returns (elim (Bool-cases (d.next == 0)) [
      | inl none_ ↦ rw none_ (Maps-failed 1 vaddr (get_table paddr) d.grown (λ z. cc))
      | inr some_ ↦ rw some_ (
          Maps-put_large_page d.grown vaddr d.next paddr flags (d.reached (ground arith))
            (AllFrames-Kept d.grown.kept frames) plain even)
    ])
