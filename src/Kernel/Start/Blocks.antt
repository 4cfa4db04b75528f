-- ===== src/Kernel/Start/Blocks.antt =====
-- The loop of `init_paging` over the blocks.
use ech_os.Base.{
  [], ℕ, zero, suc, ◌+◌, ◌-◌, ◌*◌, ◌/◌, ◌%◌, ◌^◌, ◌≤◌, ◌<◌, leb, List, ◌∷◌, some, false,
}
use ech_os.Base.{
  ◌≡◌, refl, sym, ap, ◌∙◌, arith, Bool-cases, inl, inr, ok, sub64, get_elem?, length, drop, subst,
}
use ech_os.Pmm.{Pmm, end_address}
use ech_os.Pmm.Block.{PmBlock, frame_size}
use ech_os.Pmm.Valid.{Region, region}
use ech_os.Pmm.Layout.{PmmIsValid, layout, end_of}
use ech_os.Paging.{Machine, done, failed, read_write_bit}
use ech_os.Paging.Tree.{Places, Tree}
use ech_os.Paging.Frames.{AllFrames}
use ech_os.Paging.Span.{in_pages}
use ech_os.Paging.MapRange.Loop.{map_range-MapsPages}
use ech_os.Kernel.Start.{is_left_out, map_block, map_blocks}
use ech_os.Kernel.Start.Covered.{
  MapsSame, MapsSame-refl, MapsSame-then, MapsPages-MapsSame, in_region, in_regions, first_of,
}
use ech_os.Kernel.Start.Laws.{length-layout}

-- Every region ends within the 48 bits of an address.
abbrev pub AllLow : List Region → Type 0
AllLow [] = Unit
AllLow (r ∷ rs) = (end_of r ≤ 2 ^ 48) × AllLow rs

none_between : (first end w : ℕ) → first % 4096 ≡ 0 → end ≤ first → in_pages first end w ≡ false
none_between first end w a h = ground arith

map_block-MapsSame :
    (m : Machine) (pml4 : ℕ) (place : Places) (b : PmBlock)
    → Tree m pml4 place
    → PmmIsValid m.physical_memory
    → AllFrames (layout m.physical_memory)
    → b.address % frame_size ≡ 0
    → end_of (region b) ≤ 2 ^ 48
    → MapsSame m pml4 (in_region (region b)) (map_block m pml4 b)
unfolding map_block
map_block-MapsSame m pml4 place b tree valid frames aligned low =
    let start : ℕ = first_of (region b) in
    let start_aligned : start / 4096 * 4096 ≡ start = ground arith in
    let end : end_address b ≡ end_of (region b) = omega arith in
    elim (Bool-cases (is_left_out b.type)) [
      | inl e ↦ rw e (MapsSame-refl m pml4 place _ tree valid (λ w. rw e refl))
      | inr e ↦ elim (Bool-cases (leb (end_of (region b)) start)) [
        | inl l ↦
            rw (e, end, l)
              (MapsSame-refl m pml4 place _ tree valid
                (λ w. rw e (none_between start (end_of (region b)) w (omega arith) (ground arith))))
        | inr l ↦
            let length : sub64 (end_of (region b)) start ≡ end_of (region b) - start =
              ground arith in
            let whole : start + (end_of (region b) - start) ≡ end_of (region b) = ground arith in
            let d =
              map_range-MapsPages m place pml4 start start (end_of (region b) - start)
                read_write_bit tree valid frames (ground arith) (ground arith) refl in
            rw (e, end, l, length)
              (MapsPages-MapsSame (in_region (region b)) (λ w. rw e refl)
                (rw (start_aligned, whole) at d))
      ]
    ]

-- Block `i`, which is the first one of those from `i` on.
block_at :
    (p : Pmm) (i : ℕ)
    → i < length p
    → AllFrames (layout p)
    → AllLow (layout p)
    → (b : PmBlock) × (get_elem? p i ≡ some b)
      × (drop i (layout p) ≡ region b ∷ drop (i + 1) (layout p))
      × (b.address % frame_size ≡ 0)
      × (end_of (region b) ≤ 2 ^ 48)
block_at [] i h frames low = absurd (omega arith)
block_at (b ∷ bs) zero h frames low = (b, refl, refl, frames.0, low.0)
block_at (b ∷ bs) (suc i) h frames low =
    let rest = block_at bs i (omega arith) frames.2 low.1 in
    let next : suc (i + 1) ≡ suc i + 1 = omega arith in
    (
      rest.0,
      rest.1,
      rest.2 ∙ ap (λ k. region rest.0 ∷ drop k (region b ∷ layout bs)) next,
      rest.3,
      rest.4,
    )

drop_all : (p : Pmm) (i : ℕ) → length p ≤ i → drop i (layout p) ≡ []
drop_all [] zero h = refl
drop_all [] (suc i) h = refl
drop_all (b ∷ bs) zero h = absurd (omega arith)
drop_all (b ∷ bs) (suc i) h = drop_all bs i (omega arith)

length_kept : (p q : Pmm) → layout q ≡ layout p → length q ≡ length p
length_kept p q e = sym (length-layout q) ∙ ap length e ∙ length-layout p

pub map_blocks-MapsSame :
    (left i : ℕ) (m : Machine) (pml4 : ℕ) (place : Places)
    → Tree m pml4 place
    → PmmIsValid m.physical_memory
    → AllFrames (layout m.physical_memory)
    → AllLow (layout m.physical_memory)
    → i + left ≡ length m.physical_memory
    → MapsSame m pml4 (in_regions (drop i (layout m.physical_memory))) (map_blocks left i m pml4)
unfolding map_blocks
map_blocks-MapsSame zero i m pml4 place tree valid frames low h =
    MapsSame-refl m pml4 place _ tree valid
      (λ w. rw (drop_all m.physical_memory i (omega (arith, h))) refl)
map_blocks-MapsSame (suc left) i m pml4 place tree valid frames low h =
    let b = block_at m.physical_memory i (omega (arith, h)) frames low in
    rw (map_blocks, b.1, b.2)
      (MapsSame-then (in_region (region b.0)) (in_regions (drop (i + 1) (layout m.physical_memory)))
        (map_block-MapsSame m pml4 place b.0 tree valid frames b.3 b.4)
        (λ mapped n. elim mapped [
          | done ↦ map_blocks left (i + 1) n pml4
          | failed ↦ ok (failed, n)
        ])
        (λ n. refl)
        (λ n place' tree' k.
          subst
            (λ rs. MapsSame n pml4 (in_regions (drop (i + 1) rs)) (map_blocks left (i + 1) n pml4))
            k.same_layout
            (map_blocks-MapsSame left (i + 1) n pml4 place' tree' k.valid (rw k.same_layout frames)
              (rw k.same_layout low)
              (omega (arith, h, length_kept m.physical_memory n.physical_memory k.same_layout)))))
