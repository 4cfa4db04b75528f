-- ===== src/Paging/Translate.antt =====
-- What the processor makes of the page tables: the specification of kernel/memory/paging.c.
use native.Mathlib.Nat.{div-div-eq-div-mul}
use ech_os.Base.{ℕ, zero, suc, ◌+◌, ◌*◌, ◌/◌, ◌%◌, ◌^◌, if◌then◌else◌, Option, none, some}
use ech_os.Base.{◌≡◌, sym, ◌∙◌, arith}
use ech_os.Bits.{bit_and-mask}
use ech_os.Paging.{has_bit, get_table, present_bit, page_size_bit, index_of}

-- The bytes that an entry maps in a table of a level: 0 is the page table, 3 the PML4.
abbrev pub span : (level : ℕ) → ℕ
span zero = 4096
span (suc level) = span level * 512

-- The number of the stretch of that size that holds an address. An address has 48 bits.
abbrev pub stretch : (level v : ℕ) → ℕ
stretch level v = v % 2 ^ 48 / span level

abbrev pub slot : (level v : ℕ) → ℕ
slot level v = stretch level v % 512

-- The entry that ends the walk from `table`, with its level. The bit for the size of a page has
-- another meaning at level 0.
unfoldable pub walk : (level : ℕ) → (words : ℕ → ℕ) → (table v : ℕ) → Option (ℕ × ℕ)
walk zero words table v =
    let e = words (table + slot 0 v * 8) in if has_bit e present_bit then some (0, e) else none
walk (suc level) words table v =
    let e = words (table + slot (suc level) v * 8) in
    let next = walk level words (get_table e) v in
    if has_bit e present_bit
    then (if has_bit e page_size_bit then some (suc level, e) else next)
    else none

-- The address in an entry, short of the bits below the size, and the address's own bits there.
abbrev pub physical : (level e v : ℕ) → ℕ
physical level e v = get_table e / span level * span level + v % span level

-- The physical address of `v`, if it is mapped.
abbrev pub address : Option (ℕ × ℕ) → (v : ℕ) → Option ℕ
address none v = none
address (some (level, e)) v = some (physical level e v)

unfoldable pub translate : (words : ℕ → ℕ) → (pml4 v : ℕ) → Option ℕ
unfolding walk
translate words pml4 v = address (walk 3 words pml4 v) v

pub stretch-suc : (level v : ℕ) → stretch (suc level) v ≡ stretch level v / 512
stretch-suc level v = sym (div-div-eq-div-mul (v % 2 ^ 48) (span level) 512)

pub stretch-slot : (level v : ℕ) → stretch (suc level) v * 512 + slot level v ≡ stretch level v
stretch-slot level v = omega (arith, stretch-suc level v)

pub stretch-top : (v : ℕ) → stretch 4 v ≡ 0
stretch-top v = omega arith

-- The index in the code is the slot.
pub index_of-slot :
    (v : ℕ)
    → (index_of 39 v ≡ slot 3 v)
      × (index_of 30 v ≡ slot 2 v)
      × (index_of 21 v ≡ slot 1 v)
      × (index_of 12 v ≡ slot 0 v)
index_of-slot v = (
  bit_and-mask 9 (v / 2 ^ 39) ∙ omega arith,
  bit_and-mask 9 (v / 2 ^ 30) ∙ omega arith,
  bit_and-mask 9 (v / 2 ^ 21) ∙ omega arith,
  bit_and-mask 9 (v / 2 ^ 12) ∙ omega arith,
)
