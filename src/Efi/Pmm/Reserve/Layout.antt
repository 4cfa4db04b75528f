-- ===== src/Efi/Pmm/Reserve/Layout.antt =====
-- Where `reserve_pmm` places the parts of the storage.
use ech_os.Base.{
  ℕ, zero, suc, ◌+◌, ◌*◌, ◌^◌, ◌<◌, ◌≡◌, refl, ap, ◌∙◌, arith, u64, length, get_or, ◌∷◌,
}
use ech_os.Pmm.{pm_block_size}
use ech_os.Efi.Pmm.{Capacity}
use ech_os.Efi.Pmm.Reserve.{pmm_size, pointer_size, storage_bytes, place_blocks, lay_out}

-- The blocks stand one behind another.
pub record Placed (left p : ℕ) : Type 0 where
  pub count : length (place_blocks left p).0 ≡ left
  pub pointer : (i : ℕ) → i < left → get_or (place_blocks left p).0 i 0 ≡ p + i * pm_block_size
  pub behind : (place_blocks left p).1 ≡ p + left * pm_block_size

place_blocks-Placed : (left p : ℕ) → p + left * pm_block_size < 2 ^ 64 → Placed left p
unfolding place_blocks
place_blocks-Placed zero p h = record {
  count = refl;
  pointer = λ i l. absurd (omega arith);
  behind = omega arith;
}
place_blocks-Placed (suc left) p h =
    let next : u64 (p + pm_block_size) ≡ p + pm_block_size = omega arith in
    let rest = place_blocks-Placed left (p + pm_block_size) (omega arith) in
    record {
      count = rw next (ap suc rest.count);
      pointer = pointer_at left p next rest;
      behind = rw next (rest.behind ∙ omega arith);
    }
  where
    pointer_at :
        (left p : ℕ)
        → u64 (p + pm_block_size) ≡ p + pm_block_size
        → Placed left (p + pm_block_size)
        → (i : ℕ) → i < suc left
        → get_or (p ∷ (place_blocks left (u64 (p + pm_block_size))).0) i 0 ≡ p + i * pm_block_size
    pointer_at left p next rest zero l = omega arith
    pointer_at left p next rest (suc i) l = rw next (rest.pointer i (omega arith) ∙ omega arith)

-- Where the storage fits the address space, `reserve_pmm` asks for exactly the bytes of its parts
-- and places them without a gap or an overlap: the PMM, the table of pointers, the blocks, and the
-- bitmap, which ends where the storage ends.
pub lay_out_lem :
    (p : ℕ) (storage : Capacity)
    → let s = lay_out p storage in
      let words = s.capacity.bitmap_words in
      let count = s.capacity.block_capacity in
      p + pmm_size + count * (pointer_size + pm_block_size) + words * 8 < 2 ^ 64
      → (s.blocks ≡ s.physical_memory + pmm_size)
        × (length s.block_table ≡ count)
        × ((i : ℕ)
            → i < count
            → get_or s.block_table i 0 ≡ s.blocks + count * pointer_size + i * pm_block_size)
        × (s.bitmap ≡ s.blocks + count * pointer_size + count * pm_block_size)
        × (s.bitmap + words * 8 ≡ s.physical_memory + storage_bytes storage)
unfolding lay_out storage_bytes
lay_out_lem p storage h =
    let count = storage.block_capacity in
    let blocks : u64 (p + pmm_size) ≡ p + pmm_size = omega arith in
    let first : u64 (u64 (p + pmm_size) + u64 (count * pointer_size))
        ≡ p + pmm_size + count * pointer_size =
      omega arith in
    let placed = place_blocks-Placed count (p + pmm_size + count * pointer_size) (omega arith) in
    rw (first, blocks)
      (refl, placed.count, placed.pointer, placed.behind, omega (arith, placed.behind))
