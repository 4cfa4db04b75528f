-- ===== src/Pmm/Mask.antt =====
-- The word operations of physical.c, `1ULL << bit` under `&`, `|=` and `&= ~`, on the list of bits.
use ech_os.Bits
use ech_os.Bits.{bits}
use ech_os.Base.{ℕ, zero, suc, ◌+◌, ◌/◌, ◌^◌, ◌≤◌, ◌<◌, bit_and, bit_or, not64}
use ech_os.Base.{one_bit, ◌==◌, Bool, true, false, not, inl, inr, set, get_or}
use ech_os.Base.{◌≡◌, refl, arith, Bool-cases, eq-or-ne, Option, none, some}
use ech_os.Pmm.Block.{find_bit}

module _ (bit word : ℕ) (h : bit < 64) where
  one_bit-eq : one_bit bit ≡ 2 ^ bit
  one_bit-eq = omega (arith, Bits.pow-lt bit 64 h)

  not-not : (b : Bool) → not (not b) ≡ b
  not-not true = refl
  not-not false = refl

  pub test_bit : not (bit_and word (one_bit bit) == 0) ≡ get_or (bits 64 word) bit true
  test_bit = rw (one_bit-eq, Bits.bit_and-eq-zero 64 bit word h) (not-not _)

  pub test_shifted : not (bit_and (word / 2 ^ bit) 1 == 0) ≡ get_or (bits 64 word) bit true
  test_shifted = rw (Bits.shift_and-one 64 bit word h) (not-not _)

  pub bits-set_bit : bits 64 (bit_or word (one_bit bit)) ≡ set (bits 64 word) bit true
  bits-set_bit = rw one_bit-eq (Bits.bits-bit_or 64 bit word h)

  pub bits-clear_bit : bits 64 (bit_and word (not64 (one_bit bit))) ≡ set (bits 64 word) bit false
  bits-clear_bit = rw one_bit-eq (Bits.bits-bit_and 64 bit word h)

  pub set_bit-lt : word < 2 ^ 64 → bit_or word (one_bit bit) < 2 ^ 64
  set_bit-lt p = rw one_bit-eq (Bits.bit_or-lt 64 bit word h p)

  pub clear_bit-lt : word < 2 ^ 64 → bit_and word (not64 (one_bit bit)) < 2 ^ 64
  clear_bit-lt p = omega (arith, Bits.bit_and-le word (not64 (one_bit bit)))

abbrev pub AllSet : (word lo hi : ℕ) → Type 0
AllSet word lo hi = (j : ℕ) → lo ≤ j → j < hi → get_or (bits 64 word) j true ≡ true

-- What the inner loop of `frame_allocate_from_block` finds from `bit` on.
pub data FindBit (word bit : ℕ) (r : Option ℕ) : Type 0 where
  full : AllSet word bit 64 → r ≡ none → FindBit word bit r
  found :
      (b : ℕ)
      → bit ≤ b
      → b < 64
      → get_or (bits 64 word) b true ≡ false
      → AllSet word bit b
      → r ≡ some b
      → FindBit word bit r

AllSet-below :
    (word bit hi : ℕ)
    → get_or (bits 64 word) bit true ≡ true
    → AllSet word (bit + 1) hi
    → AllSet word bit hi
AllSet-below word bit hi e rest j p q = elim (eq-or-ne bit j) [
  | inl same ↦ rw (← same) e
  | inr apart ↦ rest j (omega arith) q
]

FindBit-step :
    (word bit : ℕ) {r : Option ℕ}
    → get_or (bits 64 word) bit true ≡ true
    → FindBit word (bit + 1) r
    → FindBit word bit r
FindBit-step word bit e (full a h) = full (AllSet-below word bit 64 e a) h
FindBit-step word bit e (found b p q c a h) =
    found b (omega arith) q c (AllSet-below word bit b e a) h

pub find_bit_lem : (left bit word : ℕ) → bit + left ≡ 64 → FindBit word bit (find_bit left bit word)
unfolding find_bit
find_bit_lem zero bit word e = full (λ j p q. absurd (omega arith)) refl
find_bit_lem (suc left) bit word e = elim (Bool-cases (get_or (bits 64 word) bit true)) [
  | inl set_ ↦
      rw (test_bit bit word (omega arith), set_)
        (FindBit-step word bit set_ (find_bit_lem left (bit + 1) word (omega arith)))
  | inr clear ↦
      rw (test_bit bit word (omega arith), clear)
        (found bit (omega arith) (omega arith) clear (λ j p q. absurd (omega arith)) refl)
]
