-- ===== src/Pmm/MarkFrames.antt =====
-- The loop of `frames_allocate_from_block` that marks a run of frames as used.
use ech_os.Base.{ℕ, zero, suc, ◌+◌, ◌-◌, ◌*◌, ◌/◌, ◌%◌, ◌≤◌, ◌<◌, Bool, true, false}
use ech_os.Base.{ltb, leb, ◌&&◌, if◌then◌else◌, bit_or, one_bit, set}
use ech_os.Base.{Run, ok, ◌≡◌, refl, sym, ap, ◌∙◌, arith, some}
use ech_os.Pmm.Block.{PmBlock, Bitmap, mark_frames}
use ech_os.Pmm.Usage.{
  word_at, used, used-set, mark, count_free, count_free-mark_used, count_free-ext,
}
use ech_os.Pmm.Mask.{bits-set_bit, set_bit-lt}
use ech_os.Pmm.Valid.{BitmapIsValid, BitmapIsValid-write, read_word-ok, write_word-some}
use ech_os.Pmm.FindRun.{FreeRange}

-- The view with frames `lo` to `hi - 1` used.
abbrev pub mark_range : (u : ℕ → Bool) (lo hi : ℕ) → ℕ → Bool
mark_range u lo hi i = if leb lo i && ltb i hi then true else u i

abbrev pub SelfCounted : Bitmap → ℕ → Type 0
SelfCounted m total = BitmapIsValid m total (count_free total (used m.words))

pub record MarkedRange (b : PmBlock) (m : Bitmap) (lo hi : ℕ) (r : Run PmBlock) : Type 0 where
  pub after : Bitmap
  pub returns : r ≡ ok (record b { bitmap = some after })
  pub same_start : after.start ≡ m.start
  pub valid : SelfCounted after b.frames_total
  pub usage : (i : ℕ) → used after.words i ≡ mark_range (used m.words) lo hi i
  pub count :
      count_free b.frames_total (used after.words) + (hi - lo)
      ≡ count_free b.frames_total (used m.words)

-- One round: frame `f` is marked.
abbrev marked_one : Bitmap → ℕ → Bitmap
marked_one m f = record m {
  words = set m.words (f / 64) (bit_or (word_at m.words (f / 64)) (one_bit (f % 64)));
}

module _ (total : ℕ) (m : Bitmap) (f : ℕ) (valid : SelfCounted m total) (low : f < total) where
  whole : f / 64 * 64 + f % 64 ≡ f
  whole = omega arith

  marked_one-usage : (i : ℕ) → used (marked_one m f).words i ≡ mark (used m.words) f true i
  marked_one-usage i =
      used-set m.words (f / 64) (f % 64) _ true (omega (arith, valid.sized)) (omega arith)
        (bits-set_bit (f % 64) (word_at m.words (f / 64)) (omega arith)) i
      ∙ ap (λ t. mark (used m.words) t true i) whole

  marked_one-SelfCounted : SelfCounted (marked_one m f) total
  marked_one-SelfCounted =
      BitmapIsValid-write valid (f / 64) (f % 64) (omega arith) (omega arith) _ _ true
        (set_bit-lt (f % 64) (word_at m.words (f / 64)) (omega arith) (valid.words_fit (f / 64)))
        (bits-set_bit (f % 64) (word_at m.words (f / 64)) (omega arith))
        (count_free-ext total _ _
          (λ i p. marked_one-usage i ∙ ap (λ t. mark (used m.words) t true i) (sym whole)))

  marked_one-count :
      used m.words f ≡ false
      → count_free total (used (marked_one m f).words) + 1 ≡ count_free total (used m.words)
  marked_one-count free =
      ap (λ t. t + 1) (count_free-ext total _ _ (λ i p. marked_one-usage i))
      ∙ count_free-mark_used total (used m.words) f low free

MarkedRange-step :
    (b : PmBlock) (m : Bitmap) (lo hi : ℕ) {r : Run PmBlock}
    → SelfCounted m b.frames_total
    → lo < hi
    → hi ≤ b.frames_total
    → used m.words lo ≡ false
    → MarkedRange (record b { bitmap = some (marked_one m lo) }) (marked_one m lo) (lo + 1) hi r
    → MarkedRange b m lo hi r
MarkedRange-step b m lo hi valid p q free rest = record {
  after = rest.after;
  returns = rest.returns;
  same_start = rest.same_start;
  valid = rest.valid;
  usage = λ i.
      rest.usage i
      ∙ ap (λ t. if leb (lo + 1) i && ltb i hi then true else t)
          (marked_one-usage b.frames_total m lo valid (omega arith) i)
      ∙ ground arith;
  count = omega (arith, rest.count, marked_one-count b.frames_total m lo valid (omega arith) free);
}

pub mark_frames_lem :
    (b : PmBlock) (m : Bitmap) (left lo hi : ℕ)
    → b.bitmap ≡ some m
    → SelfCounted m b.frames_total
    → lo + left ≡ hi
    → hi ≤ b.frames_total
    → FreeRange (used m.words) lo hi
    → MarkedRange b m lo hi (mark_frames left lo b)
unfolding mark_frames
mark_frames_lem b m zero lo hi managed valid e q free = record {
  after = m;
  returns = ap (λ t. ok (record b { bitmap = t })) managed;
  same_start = refl;
  valid = valid;
  usage = λ i. ground arith;
  count = omega arith;
}
mark_frames_lem b m (suc left) lo hi managed valid e q free =
    rw
      (
        read_word-ok (lo / 64) managed (omega (arith, valid.sized)),
        write_word-some (lo / 64) _ managed,
      )
      (MarkedRange-step b m lo hi valid (omega arith) q (free lo (omega arith) (omega arith)) (
        mark_frames_lem (record b { bitmap = some (marked_one m lo) }) (marked_one m lo) left
          (lo + 1) hi refl (marked_one-SelfCounted b.frames_total m lo valid (omega arith))
          (omega arith) q
          (λ i p h.
            marked_one-usage b.frames_total m lo valid (omega arith) i
            ∙ ground (arith, free i (omega arith) h))))
