-- ===== src/Pmm/Allocate.antt =====
-- `frame_allocate_from_block`: the lowest free frame is claimed.
use ech_os.Base.{ℕ, zero, suc, ◌+◌, ◌-◌, ◌*◌, ◌^◌, ◌≤◌, ◌<◌, all_ones, ◌==◌, true, false}
use ech_os.Base.{List, get_or, length, Run, ok, Bool-cases, lt-or-le, if◌then◌else◌}
use ech_os.Base.{◌≡◌, refl, sym, ap, ◌∙◌, arith, Option, none, some, inl, inr}
use ech_os.Pmm.Block.{Bitmap, PmBlock, frame_size, no_frame, frame_map_size, find_bit, claim}
use ech_os.Pmm.Block.{scan_entries, frame_allocate_from_block}
use ech_os.Pmm.Usage.{word_at, used, used-at, count_free, count_free-mark_used, mark, bits-all_ones}
use ech_os.Pmm.Usage.{count_free-none, count_free-le}
use ech_os.Bits.{bits}
use ech_os.Pmm.Mask.{FindBit, full, found, find_bit_lem, bits-set_bit, set_bit-lt}
use ech_os.Pmm.Valid.{BitmapIsValid, used_in, IsValid, block_used, read_word-ok}
use ech_os.Pmm.Valid.{Marked, Marked-write, bitmap_valid}

abbrev UsedBetween : (words : List ℕ) (lo hi : ℕ) → Type 0
UsedBetween words lo hi = (n : ℕ) → lo ≤ n → n < hi → used words n ≡ true

-- What the outer loop gives from `entry` on.
data Scan (b : PmBlock) (words : List ℕ) (entry : ℕ) (r : Run (ℕ × PmBlock)) : Type 0 where
  all_used :
      ((n : ℕ) → entry * 64 ≤ n → used words n ≡ true) → r ≡ ok (no_frame, b) → Scan b words entry r
  claimed :
      (e bit : ℕ)
      → e < length words
      → bit < 64
      → used words (e * 64 + bit) ≡ false
      → UsedBetween words (entry * 64) (e * 64 + bit)
      → r ≡ ok (claim b e bit (word_at words e))
      → Scan b words entry r

word_used :
    (words : List ℕ) (entry hi : ℕ)
    → hi ≤ 64
    → ((j : ℕ) → j < hi → used words (entry * 64 + j) ≡ true)
    → UsedBetween words (entry * 64) (entry * 64 + hi)
word_used words entry hi h a n p q =
    let e : entry * 64 + (n - entry * 64) ≡ n = omega arith in
    rw (← e) (a (n - entry * 64) (omega arith))

Scan-skip :
    (b : PmBlock) (words : List ℕ) (entry : ℕ) {r : Run (ℕ × PmBlock)}
    → UsedBetween words (entry * 64) (entry * 64 + 64)
    → Scan b words (entry + 1) r
    → Scan b words entry r
Scan-skip b words entry here (all_used a h) =
    all_used
      (λ n p. elim (lt-or-le n (entry * 64 + 64)) [
        | inl low ↦ here n p low
        | inr high ↦ a n (omega arith)
      ])
      h
Scan-skip b words entry here (claimed e bit p q c a h) =
    claimed e bit p q c
      (λ n lo hi. elim (lt-or-le n (entry * 64 + 64)) [
        | inl low ↦ here n lo low
        | inr high ↦ a n (omega arith) hi
      ])
      h

-- One entry's word, `rest` being what the later entries give.
module _ (b : PmBlock) (words : List ℕ) (entry : ℕ) {r : Run (ℕ × PmBlock)}
    (rest : Scan b words (entry + 1) r) (in_range : entry < length words) where
  abbrev word : ℕ
  word = word_at words entry

  all_set : (word == all_ones) ≡ true → (j : ℕ) → j < 64 → used words (entry * 64 + j) ≡ true
  all_set ones j p =
      let same : word ≡ all_ones = ground arith in
      used-at words entry j p ∙ ap (λ w. get_or (bits 64 w) j true) same ∙ bits-all_ones j

  Scan-found :
      {o : Option ℕ}
      → FindBit word 0 o
      → Scan b words entry (elim o [ none ↦ r | some bit ↦ ok (claim b entry bit word) ])
  Scan-found (full a h) = rw h (
      Scan-skip b words entry
        (word_used words entry 64 (omega arith)
          (λ j p. used-at words entry j p ∙ a j (omega arith) p))
        rest)
  Scan-found (found bit p q c a h) = rw h (
      claimed entry bit in_range q (used-at words entry bit q ∙ c)
        (word_used words entry bit (omega arith)
          (λ j below. used-at words entry j (omega arith) ∙ a j (omega arith) below))
        refl)

  Scan-word : Scan b words entry (
      if word == all_ones
      then r
      else elim (find_bit 64 0 word) [ none ↦ r | some bit ↦ ok (claim b entry bit word) ])
  Scan-word = elim (Bool-cases (word == all_ones)) [
    | inl ones ↦
        rw ones
          (Scan-skip b words entry (word_used words entry 64 (omega arith) (all_set ones)) rest)
    | inr other ↦ rw other (Scan-found (find_bit_lem 64 0 word refl))
  ]

scan_entries_lem :
    (b : PmBlock) (m : Bitmap) (left entry : ℕ)
    → b.bitmap ≡ some m
    → entry + left ≡ length m.words
    → ((n : ℕ) → length m.words * 64 ≤ n → used m.words n ≡ true)
    → Scan b m.words entry (scan_entries left entry b)
unfolding scan_entries
scan_entries_lem b m zero entry managed e beyond = all_used (λ n p. beyond n (omega arith)) refl
scan_entries_lem b m (suc left) entry managed e beyond =
    let in_range : entry < length m.words = omega arith in
    let rest = scan_entries_lem b m left (entry + 1) managed (omega arith) beyond in
    rw (read_word-ok entry managed in_range) (Scan-word b m.words entry rest in_range)

-- What `frame_allocate_from_block` gives on a managed block.
pub data BlockAllocation (b : PmBlock) (r : Run (ℕ × PmBlock)) : Type 0 where
  exhausted : b.frames_free ≡ 0 → r ≡ ok (no_frame, b) → BlockAllocation b r
  taken :
      (n : ℕ) (b' : PmBlock)
      → n < b.frames_total
      → block_used b n ≡ false
      → ((i : ℕ) → i < n → block_used b i ≡ true)
      → Marked b n true b'
      → b'.frames_free + 1 ≡ b.frames_free
      → r ≡ ok (b.address + n * frame_size, b')
      → BlockAllocation b r

module _ (b : PmBlock) (m : Bitmap) (valid : IsValid b) (managed : b.bitmap ≡ some m) where
  bitmap : BitmapIsValid m b.frames_total b.frames_free
  bitmap = bitmap_valid valid managed

  below_total : (n : ℕ) → used m.words n ≡ false → n < b.frames_total
  below_total n free = elim (lt-or-le n b.frames_total) [
    | inl low ↦ low
    | inr high ↦ cc (bitmap.tail_used n high)
  ]

  module _ (e bit : ℕ) (in_range : e < length m.words) (below : bit < 64)
      (free : used m.words (e * 64 + bit) ≡ false) where
    one_less :
        count_free b.frames_total (mark (used m.words) (e * 64 + bit) true) + 1 ≡ b.frames_free
    one_less =
        count_free-mark_used b.frames_total (used m.words) (e * 64 + bit)
          (below_total (e * 64 + bit) free) free
        ∙ sym bitmap.counted

    small : b.frames_free < 2 ^ 64
    small = omega (arith, valid.fits, bitmap.counted, count_free-le b.frames_total (used m.words))

    claim-Marked : Marked b (e * 64 + bit) true (claim b e bit (word_at m.words e)).1
    unfolding claim
    claim-Marked =
        Marked-write b m e bit _ _ true valid managed (below_total (e * 64 + bit) free) below
          (set_bit-lt bit (word_at m.words e) below (bitmap.words_fit e))
          (bits-set_bit bit (word_at m.words e) below) (omega (arith, one_less, small))

    claim-free : (claim b e bit (word_at m.words e)).1.frames_free + 1 ≡ b.frames_free
    unfolding claim
    claim-free = omega (arith, one_less, small)

    claim-address : (claim b e bit (word_at m.words e)).0 ≡ b.address + (e * 64 + bit) * frame_size
    unfolding claim
    claim-address = omega (arith, valid.fits, below_total (e * 64 + bit) free)

  Scan-BlockAllocation : {r : Run (ℕ × PmBlock)} → Scan b m.words 0 r → BlockAllocation b r
  Scan-BlockAllocation (all_used a h) =
      exhausted (bitmap.counted ∙ count_free-none b.frames_total _ (λ n p. a n (omega arith))) h
  Scan-BlockAllocation (claimed e bit p q c a h) =
      taken (e * 64 + bit) (claim b e bit (word_at m.words e)).1 (below_total (e * 64 + bit) c)
        (seen (e * 64 + bit) ∙ c) (λ i low. seen i ∙ a i (omega arith) low)
        (claim-Marked e bit p q c) (claim-free e bit p q c)
        (h ∙ ap (λ t. ok (t, (claim b e bit (word_at m.words e)).1)) (claim-address e bit p q c))
    where
      seen : (i : ℕ) → block_used b i ≡ used m.words i
      seen i = ap (λ t. used_in t i) managed

  -- On a valid, managed block `frame_allocate_from_block` does not fault: without a free frame it
  -- returns `no_frame` and the block as it was; else it returns the address of the lowest free
  -- frame and marks that frame alone, with one free frame less, and the block stays valid.
  pub frame_allocate_from_block_lem : BlockAllocation b (frame_allocate_from_block b)
  unfolding frame_allocate_from_block
  frame_allocate_from_block_lem = Scan-BlockAllocation (
      scan_entries_lem b m (frame_map_size b.frames_total) 0 managed
        (omega (arith, valid.fits, bitmap.sized))
        (λ n p. bitmap.tail_used n (omega (arith, bitmap.sized))))
