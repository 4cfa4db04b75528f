-- ===== src/Pmm/Free.antt =====
-- `frame_free_from_block`: one frame is marked free, whatever its state was.
use ech_os.Bits.{bits}
use ech_os.Base.{ℕ, ◌+◌, ◌*◌, ◌/◌, ◌%◌, ◌<◌, ◌==◌, Bool, true, false}
use ech_os.Base.{
  get_or, Run, ok, Bool-cases, u64, sub64, bit_and, not64, not, one_bit, if◌then◌else◌,
}
use ech_os.Base.{◌≡◌, refl, sym, ap, ◌∙◌, arith, eq-or-ne, none, some, inl, inr}
use ech_os.Pmm.Block.{Bitmap, PmBlock, frame_size, release, frame_free_from_block, write_word}
use ech_os.Pmm.Usage.{
  word_at, used, used-at, count_free, count_free-mark_free, count_free-ext, mark,
}
use ech_os.Pmm.Usage.{count_free-le}
use ech_os.Pmm.Mask.{test_bit, bits-clear_bit, clear_bit-lt}
use ech_os.Pmm.Valid.{
  BitmapIsValid, IsValid, used_in, block_used, read_word-ok, Marked, Marked-write,
}
use ech_os.Pmm.Valid.{bitmap_valid}

abbrev pub one_if : Bool → ℕ
one_if b = if b then 1 else 0

-- What freeing frame `n` gives.
pub record BlockFreed (b : PmBlock) (n : ℕ) (r : Run PmBlock) : Type 0 where
  pub after : PmBlock
  pub returns : r ≡ ok after
  pub marked : Marked b n false after
  pub free_count : after.frames_free ≡ b.frames_free + one_if (block_used b n)

module _ (b : PmBlock) (m : Bitmap) (valid : IsValid b) (managed : b.bitmap ≡ some m) where
  bitmap : BitmapIsValid m b.frames_total b.frames_free
  bitmap = bitmap_valid valid managed

  freed_count :
      (n : ℕ)
      → n < b.frames_total
      → count_free b.frames_total (mark (used m.words) n false)
        ≡ b.frames_free + one_if (used m.words n)
  freed_count n h = elim (Bool-cases (used m.words n)) [
    | inl taken ↦ rw taken (
        count_free-mark_free b.frames_total (used m.words) n h taken
        ∙ ap (λ t. t + 1) (sym bitmap.counted))
    | inr free ↦
        rw free
          (count_free-ext b.frames_total _ _ (λ i p. same free i) ∙ omega (arith, bitmap.counted))
  ]
    where
      same : used m.words n ≡ false → (i : ℕ) → mark (used m.words) n false i ≡ used m.words i
      same free i = elim (eq-or-ne n i) [
        | inl here ↦ rw (← here, free) (ground arith)
        | inr apart ↦ ground arith
      ]

  module _ (entry bit : ℕ) (low : entry * 64 + bit < b.frames_total) (below : bit < 64) where
    seen : block_used b (entry * 64 + bit) ≡ get_or (bits 64 (word_at m.words entry)) bit true
    seen = ap (λ t. used_in t (entry * 64 + bit)) managed ∙ used-at m.words entry bit below

    new_count : ℕ
    new_count =
        if not (bit_and (word_at m.words entry) (one_bit bit) == 0)
        then u64 (b.frames_free + 1)
        else b.frames_free

    new_count-eq : new_count ≡ b.frames_free + one_if (block_used b (entry * 64 + bit))
    unfolding new_count
    new_count-eq =
        rw (test_bit bit (word_at m.words entry) below, seen)
          (ground (arith, valid.fits, bitmap.counted, count_free-le b.frames_total (used m.words)))

    cleared : PmBlock
    unfolding new_count
    cleared = record b {
      frames_free = new_count;
      bitmap = write_word b.bitmap entry (bit_and (word_at m.words entry) (not64 (one_bit bit)));
    }

    count_agrees :
        new_count ≡ count_free b.frames_total (mark (used m.words) (entry * 64 + bit) false)
    count_agrees =
        new_count-eq
        ∙ ap (λ t. b.frames_free + one_if t) (ap (λ t. used_in t (entry * 64 + bit)) managed)
        ∙ sym (freed_count (entry * 64 + bit) low)

    release_lem : BlockFreed b (entry * 64 + bit) (release b entry bit)
    unfolding release cleared
    release_lem = record {
      after = cleared;
      returns = rw (read_word-ok entry managed (omega (arith, bitmap.sized))) refl;
      marked =
          Marked-write b m entry bit _ _ false valid managed low below
            (clear_bit-lt bit (word_at m.words entry) below (bitmap.words_fit entry))
            (bits-clear_bit bit (word_at m.words entry) below) count_agrees;
      free_count = new_count-eq;
    }

  enters :
      (address : ℕ)
      → frame_free_from_block b address
        ≡ (let n = sub64 address b.address / frame_size in release b (n / 64) (n % 64))
  unfolding frame_free_from_block
  enters address = ground arith

  -- On a valid, managed block and an address in its frame `n`, `frame_free_from_block` does not
  -- fault, marks frame `n` alone free, and counts it only if it was used; the block stays valid.
  pub frame_free_from_block_lem :
      (n offset : ℕ)
      → n < b.frames_total
      → offset < frame_size
      → BlockFreed b n (frame_free_from_block b (b.address + n * frame_size + offset))
  frame_free_from_block_lem n offset h p =
      let frame : sub64 (b.address + n * frame_size + offset) b.address / frame_size ≡ n =
        omega (arith, valid.fits) in
      let whole : n / 64 * 64 + n % 64 ≡ n = omega arith in
      rw (enters (b.address + n * frame_size + offset), frame)
        (rw whole at (release_lem (n / 64) (n % 64) (omega arith) (omega arith)))

-- A block without a bitmap is left alone.
pub frame_free_from_block-unmanaged :
    (b : PmBlock) (address : ℕ) → b.bitmap ≡ none → frame_free_from_block b address ≡ ok b
unfolding frame_free_from_block
frame_free_from_block-unmanaged b address e = rw e
