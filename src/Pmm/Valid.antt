-- ===== src/Pmm/Valid.antt =====
-- What holds of a `pm_block` between calls, and what marking one frame in its bitmap keeps.
use ech_os.Bits.{bits}
use ech_os.Base.{ℕ, ◌+◌, ◌*◌, ◌/◌, ◌^◌, ◌≤◌, ◌<◌, all_ones, Bool, true}
use ech_os.Base.{inl, inr, ◌≢◌, length, set, length-set}
use ech_os.Base.{get_elem?-get_or, get_or-set_self, get_or-set_ne, ok}
use ech_os.Base.{◌≡◌, sym, ap, subst, ◌∙◌, arith, eq-or-ne, Option-cases, Option, none, some}
use ech_os.Pmm.Block.{Bitmap, PmType, PmBlock, frame_size, read_word, write_word}
use ech_os.Pmm.Usage.{word_at, used, count_free, mark, used-set, count_free-ext}

-- A bitmap of `total` frames, `free` of them free; the bits behind the last frame are set.
pub record BitmapIsValid (m : Bitmap) (total free : ℕ) : Type 0 where
  pub sized : length m.words ≡ (total + 63) / 64
  pub words_fit : (i : ℕ) → word_at m.words i < 2 ^ 64
  pub tail_used : (n : ℕ) → total ≤ n → used m.words n ≡ true
  pub counted : free ≡ count_free total (used m.words)

-- An unmanaged region has no free frame.
abbrev pub MapIsValid : Option Bitmap → (total free : ℕ) → Type 0
MapIsValid none total free = free ≡ 0
MapIsValid (some m) total free = BitmapIsValid m total free

pub record IsValid (b : PmBlock) : Type 0 where
  pub fits : b.address + b.frames_total * frame_size < 2 ^ 64
  pub map_valid : MapIsValid b.bitmap b.frames_total b.frames_free

-- The abstract view of a block; in an unmanaged region every frame counts as used.
abbrev pub used_in : Option Bitmap → ℕ → Bool
used_in none n = true
used_in (some m) n = used m.words n

abbrev pub block_used : PmBlock → ℕ → Bool
block_used b = used_in b.bitmap

abbrev pub start_of : Option Bitmap → Option ℕ
start_of none = none
start_of (some m) = some m.start

-- What stays the same of a block: all but its bitmap's words and its count of free frames.
pub record Region : Type 0 where
  pub address : ℕ
  pub frames_total : ℕ
  pub type : PmType
  pub attributes : ℕ
  pub start : Option ℕ

abbrev pub region : PmBlock → Region
region b = record {
  address = b.address;
  frames_total = b.frames_total;
  type = b.type;
  attributes = b.attributes;
  start = start_of b.bitmap;
}

pub read_word-ok :
    {map : Option Bitmap} {m : Bitmap} (entry : ℕ)
    → map ≡ some m
    → entry < length m.words
    → read_word map entry ≡ ok (word_at m.words entry)
unfolding read_word
read_word-ok {m} entry e h = rw e (ground (arith, get_elem?-get_or m.words entry all_ones h))

pub write_word-some :
    {map : Option Bitmap} {m : Bitmap} (entry word : ℕ)
    → map ≡ some m
    → write_word map entry word ≡ some (record m { words = set m.words entry word })
unfolding write_word
write_word-some entry word e = rw e

module _ {m : Bitmap} {total free : ℕ} (valid : BitmapIsValid m total free) (entry bit : ℕ)
    (inside : entry * 64 + bit < total) (below : bit < 64) where
  in_words : entry < length m.words
  in_words = omega (arith, valid.sized)

  -- Writing the word of a frame so that only its bit changes.
  pub BitmapIsValid-write :
      (word free' : ℕ) (v : Bool)
      → word < 2 ^ 64
      → bits 64 word ≡ set (bits 64 (word_at m.words entry)) bit v
      → free' ≡ count_free total (mark (used m.words) (entry * 64 + bit) v)
      → BitmapIsValid (record m { words = set m.words entry word }) total free'
  BitmapIsValid-write word free' v fits e c = record {
    sized = length-set m.words entry word ∙ valid.sized;
    words_fit = λ i. elim (eq-or-ne entry i) [
      | inl same ↦ rw (← same, get_or-set_self m.words entry word all_ones in_words) fits
      | inr apart ↦ rw (get_or-set_ne m.words entry i word all_ones apart) (valid.words_fit i)
    ];
    tail_used = λ i p. written i ∙ ground (arith, valid.tail_used i p);
    counted = c ∙ sym (count_free-ext total _ _ (λ i p. written i));
  }
    where
      written :
          (i : ℕ) → used (set m.words entry word) i ≡ mark (used m.words) (entry * 64 + bit) v i
      written = used-set m.words entry bit word v in_words below e

pub bitmap_valid :
    {b : PmBlock} {m : Bitmap}
    → IsValid b
    → b.bitmap ≡ some m
    → BitmapIsValid m b.frames_total b.frames_free
bitmap_valid {b} v e = subst (λ t. MapIsValid t b.frames_total b.frames_free) e v.map_valid

-- A record of what marking frame `n` of `b` as `v` gives: only that frame's state and the count
-- change, and the block stays valid.
pub record Marked (b : PmBlock) (n : ℕ) (v : Bool) (b' : PmBlock) : Type 0 where
  pub same_region : region b' ≡ region b
  pub usage : (i : ℕ) → block_used b' i ≡ mark (block_used b) n v i
  pub valid : IsValid b'

-- Writing a frame's word and the count so that they agree.
pub Marked-write :
    (b : PmBlock) (m : Bitmap) (entry bit word free' : ℕ) (v : Bool)
    → IsValid b
    → b.bitmap ≡ some m
    → entry * 64 + bit < b.frames_total
    → bit < 64
    → word < 2 ^ 64
    → bits 64 word ≡ set (bits 64 (word_at m.words entry)) bit v
    → free' ≡ count_free b.frames_total (mark (used m.words) (entry * 64 + bit) v)
    → Marked b
        (entry * 64 + bit)
        v
        (record b { bitmap = write_word b.bitmap entry word; frames_free = free' })
Marked-write b m entry bit word free' v valid e h below fits w c = record {
  same_region =
      ap (λ t. record (region b) { start = t })
        (ap start_of (write_word-some entry word e) ∙ sym (ap start_of e));
  usage = λ i.
      ap (λ t. used_in t i) (write_word-some entry word e)
      ∙ used-set m.words entry bit word v (omega (arith, old.sized)) below w i
      ∙ sym (ap (λ t. mark (used_in t) (entry * 64 + bit) v i) e);
  valid = record {
    fits = valid.fits;
    map_valid =
        rw (write_word-some entry word e)
          (BitmapIsValid-write old entry bit h below word free' v fits w c);
  };
}
  where
    old : BitmapIsValid m b.frames_total b.frames_free
    old = bitmap_valid valid e

-- A valid block with a free frame has a bitmap.
pub is_managed : (b : PmBlock) → IsValid b → b.frames_free ≢ 0 → (m : Bitmap) × (b.bitmap ≡ some m)
is_managed b v h = elim (Option-cases b.bitmap) [
  | inl none_ ↦
      absurd (h (subst (λ t. MapIsValid t b.frames_total b.frames_free) none_ v.map_valid))
  | inr found ↦ found
]
