-- ===== src/Kernel/Start/Laws.antt =====
-- `init_paging` returns and only takes frames.
use ech_os.Base.{
  ℕ, zero, suc, ◌+◌, ◌-◌, ◌^◌, ◌≤◌, ◌<◌, ltb, leb, ◌==◌, if◌then◌else◌, u64, sub64, [], ◌∷◌, List,
}
use ech_os.Base.{some, get_elem?, length, ◌≡◌, refl, sym, ap, ◌∙◌, arith, Bool-cases, inl, inr}
use ech_os.Pmm.{Pmm, end_address}
use ech_os.Pmm.Block.{PmBlock, frame_size}
use ech_os.Pmm.Valid.{Region, region}
use ech_os.Pmm.Layout.{PmmIsValid, layout, end_of}
use ech_os.Paging.{Machine, Outcome, done, failed, init_pml4, page_size, read_write_bit}
use ech_os.Paging.Kept.{Returns, Returns-ok, Returns-then, alloc_table-Returns}
use ech_os.Paging.Range.{map_range_lem, Returns-cases}
use ech_os.Kernel.Colonel.{Framebuffer}
use ech_os.Kernel.Start.{
  is_left_out, map_block, map_blocks, fb_length, map_framebuffer, init_paging,
}

-- Every region ends before the last page of the address space.
abbrev pub AllBelow : List Region → Type 0
AllBelow [] = Unit
AllBelow (r ∷ rs) = (end_of r ≤ 2 ^ 64 - page_size) × AllBelow rs

pub length-layout : (p : Pmm) → length (layout p) ≡ length p
length-layout [] = refl
length-layout (b ∷ bs) = ap suc (length-layout bs)

block_at :
    (p : Pmm) (i : ℕ)
    → i < length p
    → AllBelow (layout p)
    → (b : PmBlock) × (get_elem? p i ≡ some b) × (end_of (region b) ≤ 2 ^ 64 - page_size)
block_at [] i h below = absurd (omega arith)
block_at (b ∷ bs) zero h below = (b, refl, below.0)
block_at (b ∷ bs) (suc i) h below = block_at bs i (omega arith) below.1

map_block-Returns :
    (m : Machine) (pml4 : ℕ) (b : PmBlock)
    → PmmIsValid m.physical_memory
    → end_of (region b) ≤ 2 ^ 64 - page_size
    → Returns m.physical_memory (map_block m pml4 b)
unfolding map_block
map_block-Returns m pml4 b v below =
    let start : ℕ = if ltb b.address frame_size then frame_size else b.address in
    elim (Bool-cases (is_left_out b.type)) [
      | inl e ↦ rw e (Returns-ok done m v)
      | inr e ↦ elim (Bool-cases (leb (end_address b) start)) [
        | inl l ↦ rw (e, l) (Returns-ok done m v)
        | inr l ↦
            rw (e, l)
              (map_range_lem m pml4 start start (sub64 (end_address b) start) read_write_bit v
                (ground arith))
      ]
    ]

map_blocks-Returns :
    (left i : ℕ) (m : Machine) (pml4 : ℕ)
    → PmmIsValid m.physical_memory
    → i + left ≤ length m.physical_memory
    → AllBelow (layout m.physical_memory)
    → Returns m.physical_memory (map_blocks left i m pml4)
unfolding map_blocks
map_blocks-Returns zero i m pml4 v h below = Returns-ok done m v
map_blocks-Returns (suc left) i m pml4 v h below =
    let (b, found, ends) = block_at m.physical_memory i (omega arith) below in
    rw (map_blocks, found)
      (Returns-then _ (map_block-Returns m pml4 b v ends) (λ mapped m' k.
        let same_length : length m'.physical_memory ≡ length m.physical_memory =
          sym (length-layout m'.physical_memory)
          ∙ ap length k.same_layout
          ∙ length-layout m.physical_memory in
        Returns-cases mapped
          (map_blocks-Returns left (i + 1) m' pml4 k.valid (omega (arith, same_length))
            (rw k.same_layout below))
          (Returns-ok failed m' k.valid)))

pub init_paging_lem :
    (m : Machine) (fb : Framebuffer)
    → PmmIsValid m.physical_memory
    → AllBelow (layout m.physical_memory)
    → u64 (fb.buffer + fb_length fb) ≤ 2 ^ 64 - page_size
    → Returns m.physical_memory (init_paging m fb)
unfolding init_paging init_pml4 map_framebuffer
init_paging_lem m fb v below fb_below = Returns-then _ (alloc_table-Returns m v) (λ pml4 m' k.
    elim (Bool-cases (pml4 == 0)) [
      | inl e ↦ rw e (Returns-ok failed m' k.valid)
      | inr e ↦ rw e (
          Returns-then _
            (map_blocks-Returns (length m'.physical_memory) 0 m' pml4 k.valid (omega arith)
              (rw k.same_layout below))
            (λ mapped m'' k'. frame_buffer pml4 mapped m'' k'.valid))
    ])
  where
    frame_buffer :
        (pml4 : ℕ) (o : Outcome) (n : Machine)
        → PmmIsValid n.physical_memory
        → Returns n.physical_memory (map_framebuffer n fb pml4 o)
    frame_buffer pml4 failed n w = Returns-ok failed n w
    frame_buffer pml4 done n w =
        map_range_lem n pml4 fb.buffer fb.buffer (fb_length fb) read_write_bit w fb_below
