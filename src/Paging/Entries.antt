-- ===== src/Paging/Entries.antt =====
-- The bits and the address of the entries that the paging code writes.
use ech_os.Bits.{bit_and-mask, bit_and-zero, bit_or-zero}
use ech_os.Bits.Logic.{bit_and-bit_or, bit_and_assoc, le-bit_or, bit_and-times}
use ech_os.Base.{ℕ, ◌-◌, ◌*◌, ◌/◌, ◌%◌, ◌^◌, ◌<◌, ◌==◌, bit_and, bit_or, not, true, false}
use ech_os.Base.{◌≡◌, ◌≢◌, refl, sym, ap, ◌∙◌, arith}
use ech_os.Paging.{
  has_bit, get_table, init_pt_entry, phys_addr_mask, present_bit, read_write_bit,
  user_supervisor_bit, page_size_bit,
}

-- The address in an entry: bits 12 to 51.
pub get_table-eq : (e : ℕ) → get_table e ≡ 4096 * (e / 4096 % 2 ^ 40)
get_table-eq e = bit_and-times 12 e (2 ^ 40 - 1) ∙ ap (λ t. 4096 * t) (bit_and-mask 40 (e / 4096))

pub get_table_frame : (f : ℕ) → f % 4096 ≡ 0 → f < 2 ^ 52 → get_table f ≡ f
get_table_frame f a h = get_table-eq f ∙ omega arith

pub get_table_aligned : (e : ℕ) → (get_table e % 4096 ≡ 0) × (get_table e < 2 ^ 52)
get_table_aligned e = (omega (arith, get_table-eq e), omega (arith, get_table-eq e))

pub get_table_twice : (e : ℕ) → get_table (get_table e) ≡ get_table e
get_table_twice e = bit_and_assoc e phys_addr_mask phys_addr_mask

-- `c` misses the bits of the address.
address_misses : (e c : ℕ) → bit_and phys_addr_mask c ≡ 0 → bit_and (get_table e) c ≡ 0
address_misses e c h = bit_and_assoc e phys_addr_mask c ∙ ap (bit_and e) h ∙ bit_and-zero e

-- What is or-ed to an entry does not show where it has no bits.
or_misses : (e d c : ℕ) → bit_and d c ≡ 0 → bit_and (bit_or e d) c ≡ bit_and e c
or_misses e d c h = bit_and-bit_or e d c ∙ ap (bit_or (bit_and e c)) h ∙ bit_or-zero (bit_and e c)

part_misses : (flags s c : ℕ) → bit_and s c ≡ 0 → bit_and (bit_and flags s) c ≡ 0
part_misses flags s c h = bit_and_assoc flags s c ∙ ap (bit_and flags) h ∙ bit_and-zero flags

-- A bit that is or-ed to an entry is set.
has_bit-bit_or : (e d c : ℕ) → bit_and d c ≢ 0 → has_bit (bit_or e d) c ≡ true
has_bit-bit_or e d c h =
    let some_ : bit_and (bit_or e d) c ≢ 0 =
      λ z. h (omega (arith, le-bit_or (bit_and e c) (bit_and d c), bit_and-bit_or e d c)) in
    ground (arith, some_)

has_bit-same : (e e' c : ℕ) → bit_and e' c ≡ bit_and e c → has_bit e' c ≡ has_bit e c
has_bit-same e e' c h = ap (λ t. not (t == 0)) h

module _ (e flags : ℕ) where
  abbrev shared : ℕ
  shared = bit_or e (bit_and flags user_supervisor_bit)

  pub shared-present : has_bit shared present_bit ≡ has_bit e present_bit
  shared-present =
      has_bit-same e shared present_bit
        (or_misses e (bit_and flags 4) 1 (part_misses flags 4 1 refl))

  pub shared-page_size : has_bit shared page_size_bit ≡ has_bit e page_size_bit
  shared-page_size =
      has_bit-same e shared page_size_bit
        (or_misses e (bit_and flags 4) 0x80 (part_misses flags 4 0x80 refl))

  pub get_table-shared : get_table shared ≡ get_table e
  get_table-shared =
      or_misses e (bit_and flags 4) phys_addr_mask (part_misses flags 4 phys_addr_mask refl)

-- The entry that `next_table` makes for the table at `f`.
module _ (f flags : ℕ) (aligned : f % 4096 ≡ 0) (low : f < 2 ^ 52) where
  abbrev attached : ℕ
  attached =
      bit_or (bit_or (bit_or f present_bit) read_write_bit) (bit_and flags user_supervisor_bit)

  frame_misses : (c : ℕ) → bit_and phys_addr_mask c ≡ 0 → bit_and f c ≡ 0
  frame_misses c h =
      ap (λ t. bit_and t c) (sym (get_table_frame f aligned low)) ∙ address_misses f c h

  pub attached-present : has_bit attached present_bit ≡ true
  attached-present =
      has_bit-same (bit_or (bit_or f 1) 2) attached 1
        (or_misses (bit_or (bit_or f 1) 2) (bit_and flags 4) 1 (part_misses flags 4 1 refl))
      ∙ has_bit-same (bit_or f 1) (bit_or (bit_or f 1) 2) 1 (or_misses (bit_or f 1) 2 1 refl)
      ∙ has_bit-bit_or f 1 1 (λ z. absurd (omega (arith, z)))

  bare :
      (c : ℕ)
      → bit_and 1 c ≡ 0
      → bit_and 2 c ≡ 0
      → bit_and 4 c ≡ 0
      → bit_and attached c ≡ bit_and f c
  bare c one two four =
      or_misses (bit_or (bit_or f 1) 2) (bit_and flags 4) c (part_misses flags 4 c four)
      ∙ or_misses (bit_or f 1) 2 c two
      ∙ or_misses f 1 c one

  pub attached-page_size : has_bit attached page_size_bit ≡ false
  attached-page_size =
      has_bit-same f attached page_size_bit (bare 0x80 refl refl refl)
      ∙ ap (λ t. not (t == 0)) (frame_misses 0x80 refl)

  pub get_table-attached : get_table attached ≡ f
  get_table-attached = bare phys_addr_mask refl refl refl ∙ get_table_frame f aligned low

-- The entry of a page.
pub leaf-present :
    (paddr flags : ℕ) → has_bit (init_pt_entry paddr (bit_or flags present_bit)) present_bit ≡ true
unfolding init_pt_entry
leaf-present paddr flags =
    has_bit-bit_or (bit_and paddr phys_addr_mask) (bit_or flags 1) 1
      (λ z. absurd (omega (arith, z, le-bit_or (bit_and flags 1) 1, bit_and-bit_or flags 1 1)))

pub get_table-leaf :
    (paddr flags : ℕ)
    → bit_and flags phys_addr_mask ≡ 0
    → get_table (init_pt_entry paddr (bit_or flags present_bit)) ≡ get_table paddr
unfolding init_pt_entry
get_table-leaf paddr flags h =
    or_misses (get_table paddr) (bit_or flags 1) phys_addr_mask
      (or_misses flags 1 phys_addr_mask refl ∙ h)
    ∙ get_table_twice paddr

-- The entry of a large page.
module _ (paddr flags : ℕ) where
  abbrev large_leaf : ℕ
  large_leaf =
      bit_or (bit_or (bit_or (bit_and paddr phys_addr_mask) flags) present_bit) page_size_bit

  pub large_leaf-present : has_bit large_leaf present_bit ≡ true
  large_leaf-present =
      has_bit-same (bit_or (bit_or (get_table paddr) flags) 1) large_leaf 1
        (or_misses (bit_or (bit_or (get_table paddr) flags) 1) 0x80 1 refl)
      ∙ has_bit-bit_or (bit_or (get_table paddr) flags) 1 1 (λ z. absurd (omega (arith, z)))

  pub large_leaf-page_size : has_bit large_leaf page_size_bit ≡ true
  large_leaf-page_size =
      has_bit-bit_or (bit_or (bit_or (get_table paddr) flags) 1) 0x80 0x80
        (λ z. absurd (omega (arith, z)))

  pub get_table-large_leaf :
      bit_and flags phys_addr_mask ≡ 0 → get_table large_leaf ≡ get_table paddr
  get_table-large_leaf h =
      or_misses (bit_or (bit_or (get_table paddr) flags) 1) 0x80 phys_addr_mask refl
      ∙ or_misses (bit_or (get_table paddr) flags) 1 phys_addr_mask refl
      ∙ or_misses (get_table paddr) flags phys_addr_mask h
      ∙ get_table_twice paddr
