-- ===== src/Efi/Pmm/Words.antt =====
-- The bitmaps that `build_pmm` lays out, frame by frame.
use ech_os.Bits
use ech_os.Bits.{bits}
use ech_os.Base.{ℕ, ◌+◌, ◌-◌, ◌*◌, ◌/◌, ◌%◌, ◌^◌, ◌≤◌, ◌<◌, ◌==◌, leb, Bool, true, false}
use ech_os.Base.{
  if◌then◌else◌, bit_or, List, u64, all_ones, set, get_or, replicate, length, lt-or-le, eq-or-ne,
}
use ech_os.Base.{
  length-set, length-replicate, get_or-replicate, get_or-past, get_or-set_self, get_or-set_ne,
}
use ech_os.Base.{◌≡◌, ◌≢◌, sym, ap, ◌∙◌, arith, Bool-cases, inl, inr}
use ech_os.Pmm.Block.{frame_map_size}
use ech_os.Pmm.Mask.{bits-set_bit, set_bit-lt}
use ech_os.Pmm.Usage.{word_at, used, used-at, used-set, mark, bits-all_ones}
use native.Mathlib.Nat.{one-le-pow}
use ech_os.Efi.Pmm.{clear_tail, hide_zero, usable_words}

split : (n : ℕ) → n / 64 * 64 + n % 64 ≡ n
split n = omega arith

-- The view of a list of words, a word at a time.
used-word :
    (words : List ℕ) (n : ℕ)
    → used words n ≡ get_or (bits 64 (word_at words (n / 64))) (n % 64) true
used-word words n = ap (used words) (sym (split n)) ∙ used-at words (n / 64) (n % 64) (omega arith)

used-past : (words : List ℕ) (n : ℕ) → length words * 64 ≤ n → used words n ≡ true
used-past words n h =
    used-word words n
    ∙ ap (λ w. get_or (bits 64 w) (n % 64) true) (get_or-past words (n / 64) all_ones (omega arith))
    ∙ bits-all_ones (n % 64)

pub used-replicate_ones : (k n : ℕ) → used (replicate k all_ones) n ≡ true
used-replicate_ones k n = elim (lt-or-le (n / 64) k) [
  | inl low ↦
      used-word (replicate k all_ones) n
      ∙ ap (λ w. get_or (bits 64 w) (n % 64) true)
          (get_or-replicate k all_ones all_ones (n / 64) low)
      ∙ bits-all_ones (n % 64)
  | inr high ↦ used-past (replicate k all_ones) n (omega (arith, length-replicate k all_ones))
]

-- A PM_USABLE block has all its frames free, but for frame 0 where it begins at physical address 0.
abbrev pub fresh_view : (pages address : ℕ) → ℕ → Bool
fresh_view pages address n = if address == 0 then mark (leb pages) 0 true n else leb pages n

module _ (pages : ℕ) (pos : 0 < pages) (small : pages * 4096 < 2 ^ 64) where
  abbrev zeros : List ℕ
  zeros = replicate (frame_map_size pages) 0

  abbrev last : ℕ
  last = frame_map_size pages - 1

  high_bits : pages % 64 ≢ 0 → u64 (all_ones * 2 ^ (pages % 64)) ≡ 2 ^ 64 - 2 ^ (pages % 64)
  high_bits h =
      omega
        (arith, Bits.pow-lt (pages % 64) 64 (omega arith), one-le-pow (pages % 64) 2 (omega arith))

  length-clear_tail : length (clear_tail pages zeros) ≡ frame_map_size pages
  unfolding clear_tail
  length-clear_tail = elim (Bool-cases (pages % 64 == 0)) [
    | inl even ↦ rw even (length-replicate (frame_map_size pages) 0)
    | inr rest ↦ rw rest (length-set zeros last _ ∙ length-replicate (frame_map_size pages) 0)
  ]

  zero_word : (n : ℕ) → get_or (bits 64 0) (n % 64) true ≡ false
  zero_word n = Bits.bits-high 64 64 (n % 64) (omega arith) ∙ ground arith

  word-clear_tail :
      (i : ℕ)
      → i < frame_map_size pages
      → word_at (clear_tail pages zeros) i
        ≡ (if pages % 64 == 0 then 0 else (if last == i then 2 ^ 64 - 2 ^ (pages % 64) else 0))
  unfolding clear_tail
  word-clear_tail i h = elim (Bool-cases (pages % 64 == 0)) [
    | inl even ↦ rw even (get_or-replicate (frame_map_size pages) 0 all_ones i h)
    | inr rest ↦ rw rest (elim (eq-or-ne last i) [
      | inl here ↦
          let hit : (last == i) ≡ true = ground arith in
          let in_words : last < length zeros =
            omega (arith, length-replicate {A = ℕ} (frame_map_size pages) 0) in
          rw
            (
              hit,
              ← here,
              get_or-set_self zeros last (u64 (all_ones * 2 ^ (pages % 64))) all_ones in_words,
            )
            (high_bits (ground arith))
      | inr other ↦
          let miss : (last == i) ≡ false = ground arith in
          rw (miss, get_or-set_ne zeros last i (u64 (all_ones * 2 ^ (pages % 64))) all_ones other)
            (get_or-replicate (frame_map_size pages) 0 all_ones i h)
    ])
  ]

  used-clear_tail : (n : ℕ) → used (clear_tail pages zeros) n ≡ leb pages n
  used-clear_tail n = elim (lt-or-le (n / 64) (frame_map_size pages)) [
    | inl low ↦
        used-word (clear_tail pages zeros) n
        ∙ ap (λ w. get_or (bits 64 w) (n % 64) true) (word-clear_tail (n / 64) low)
        ∙ in_range low
    | inr high ↦
        used-past (clear_tail pages zeros) n (omega (arith, length-clear_tail)) ∙ ground arith
  ]
    where
      in_range :
          n / 64 < frame_map_size pages
          → get_or
              (bits 64 (
                if pages % 64 == 0
                then 0
                else (if last == n / 64 then 2 ^ 64 - 2 ^ (pages % 64) else 0)))
              (n % 64)
              true
            ≡ leb pages n
      in_range low = elim (Bool-cases (pages % 64 == 0)) [
        | inl even ↦ rw even (zero_word n ∙ ground arith)
        | inr rest ↦ rw rest (elim (Bool-cases (last == n / 64)) [
          | inl here ↦
              rw here (Bits.bits-high 64 (pages % 64) (n % 64) (omega arith) ∙ ground arith)
          | inr other ↦ rw other (zero_word n ∙ ground arith)
        ])
      ]

  words_fit-clear_tail : (i : ℕ) → word_at (clear_tail pages zeros) i < 2 ^ 64
  words_fit-clear_tail i = elim (lt-or-le i (frame_map_size pages)) [
    | inl low ↦ rw (word-clear_tail i low) (ground (arith, one-le-pow (pages % 64) 2 (omega arith)))
    | inr high ↦
        rw (get_or-past (clear_tail pages zeros) i all_ones (omega (arith, length-clear_tail)))
          (omega arith)
  ]

  pub length-usable_words :
      (address : ℕ) → length (usable_words address pages) ≡ frame_map_size pages
  unfolding usable_words hide_zero
  length-usable_words address = elim (Bool-cases (address == 0)) [
    | inl zero_ ↦ rw zero_ (length-set (clear_tail pages zeros) 0 _ ∙ length-clear_tail)
    | inr other ↦ rw other length-clear_tail
  ]

  pub used-usable_words :
      (address n : ℕ) → used (usable_words address pages) n ≡ fresh_view pages address n
  unfolding usable_words hide_zero
  used-usable_words address n = elim (Bool-cases (address == 0)) [
    | inl zero_ ↦ rw zero_ (
        used-set (clear_tail pages zeros) 0 0 _ true (omega (arith, length-clear_tail))
          (omega arith) (bits-set_bit 0 (word_at (clear_tail pages zeros) 0) (omega arith)) n
        ∙ ap (λ t. if 0 == n then true else t) (used-clear_tail n))
    | inr other ↦ rw other (used-clear_tail n)
  ]

  pub words_fit-usable_words : (address i : ℕ) → word_at (usable_words address pages) i < 2 ^ 64
  unfolding usable_words hide_zero
  words_fit-usable_words address i = elim (Bool-cases (address == 0)) [
    | inl zero_ ↦ rw zero_ (hidden i)
    | inr other ↦ rw other (words_fit-clear_tail i)
  ]
    where
      word : ℕ
      word = bit_or (word_at (clear_tail pages zeros) 0) 1

      hidden : (i : ℕ) → word_at (set (clear_tail pages zeros) 0 word) i < 2 ^ 64
      hidden i = elim (eq-or-ne 0 i) [
        | inl first ↦
            rw
              (
                ← first,
                get_or-set_self (clear_tail pages zeros) 0 word all_ones
                    (omega (arith, length-clear_tail)),
              )
              (set_bit-lt 0 (word_at (clear_tail pages zeros) 0) (omega arith)
                (words_fit-clear_tail 0))
        | inr later ↦
            rw (get_or-set_ne (clear_tail pages zeros) 0 i word all_ones later)
              (words_fit-clear_tail i)
      ]
