-- ===== src/Pmm/Usage.antt =====
-- The abstract view of a bitmap: which frames are used, as a function of the frame's number, and
-- how many are free. What a write of one word does to that view.
use ech_os.Bits
use ech_os.Bits.{bits}
use ech_os.Base.{ℕ, zero, suc, ◌+◌, ◌*◌, ◌/◌, ◌%◌, ◌≤◌, ◌<◌}
use ech_os.Base.{all_ones, ◌==◌, if◌then◌else◌, Bool, true, false, inl, inr}
use ech_os.Base.{List, length, get_or, set, get_or-set_self, get_or-set_ne, ◌≡◌, refl}
use ech_os.Base.{arith, eq-or-ne}

abbrev pub word_at : List ℕ → ℕ → ℕ
word_at words entry = get_or words entry all_ones

-- A frame without a word counts as used.
unfoldable pub used : List ℕ → ℕ → Bool
used words n = get_or (bits 64 (word_at words (n / 64))) (n % 64) true

unfoldable pub count_free : ℕ → (ℕ → Bool) → ℕ
count_free zero u = 0
count_free (suc n) u = count_free n u + (if u n then 0 else 1)

-- The view with frame `n` marked `v`.
abbrev pub mark : (ℕ → Bool) → ℕ → Bool → ℕ → Bool
mark u n v i = if n == i then v else u i

pub used-at :
    (words : List ℕ) (entry bit : ℕ)
    → bit < 64
    → used words (entry * 64 + bit) ≡ get_or (bits 64 (word_at words entry)) bit true
unfolding used
used-at words entry bit h =
    let e : (entry * 64 + bit) / 64 ≡ entry = omega arith in
    let m : (entry * 64 + bit) % 64 ≡ bit = omega arith in rw (e, m)

pub bits-all_ones : (bit : ℕ) → get_or (bits 64 all_ones) bit true ≡ true
bits-all_ones bit = Bits.bits-full 64 bit

-- A write of one word whose bits change at one place.
pub used-set :
    (words : List ℕ) (entry bit word : ℕ) (v : Bool)
    → entry < length words
    → bit < 64
    → bits 64 word ≡ set (bits 64 (word_at words entry)) bit v
    → (n : ℕ) → used (set words entry word) n ≡ mark (used words) (entry * 64 + bit) v n
unfolding used
used-set words entry bit word v he hb e n = elim (eq-or-ne entry (n / 64)) [
  | inl here ↦ rw (← here, get_or-set_self words entry word all_ones he, e) (in_word n here)
  | inr other ↦ rw (get_or-set_ne words entry (n / 64) word all_ones other) (ground arith)
]
  where
    old : List Bool
    old = bits 64 (word_at words entry)

    in_word :
        (n : ℕ)
        → entry ≡ n / 64
        → get_or (set old bit v) (n % 64) true
          ≡ (if entry * 64 + bit == n then v else get_or old (n % 64) true)
    in_word n here = elim (eq-or-ne bit (n % 64)) [
      | inl same ↦
          let hit : (entry * 64 + bit == n) ≡ true = ground arith in
          rw (hit, ← same) (get_or-set_self old bit v true (rw Bits.length-bits hb))
      | inr apart ↦
          let miss : (entry * 64 + bit == n) ≡ false = ground arith in
          rw miss (get_or-set_ne old bit (n % 64) v true apart)
    ]

pub count_free-ext :
    (total : ℕ) (u v : ℕ → Bool)
    → ((n : ℕ) → n < total → u n ≡ v n)
    → count_free total u ≡ count_free total v
unfolding count_free
count_free-ext zero u v h = refl
count_free-ext (suc n) u v h =
    rw (count_free-ext n u v (λ i p. h i (omega arith)), h n (omega arith))

pub count_free-mark_free :
    (total : ℕ) (u : ℕ → Bool) (n : ℕ)
    → n < total
    → u n ≡ true
    → count_free total (mark u n false) ≡ count_free total u + 1
unfolding count_free
count_free-mark_free zero u n h e = absurd (omega arith)
count_free-mark_free (suc total) u n h e = elim (eq-or-ne n total) [
  | inl last ↦ ground (arith, count_free-ext total (mark u n false) u (λ i p. ground arith))
  | inr before ↦ ground (arith, count_free-mark_free total u n (omega arith) e)
]

pub count_free-mark_used :
    (total : ℕ) (u : ℕ → Bool) (n : ℕ)
    → n < total
    → u n ≡ false
    → count_free total (mark u n true) + 1 ≡ count_free total u
unfolding count_free
count_free-mark_used zero u n h e = absurd (omega arith)
count_free-mark_used (suc total) u n h e = elim (eq-or-ne n total) [
  | inl last ↦ ground (arith, count_free-ext total (mark u n true) u (λ i p. ground arith))
  | inr before ↦ ground (arith, count_free-mark_used total u n (omega arith) e)
]

pub count_free-none :
    (total : ℕ) (u : ℕ → Bool) → ((n : ℕ) → n < total → u n ≡ true) → count_free total u ≡ 0
unfolding count_free
count_free-none zero u h = refl
count_free-none (suc n) u h =
    rw (h n (omega arith)) (omega (arith, count_free-none n u (λ i p. h i (omega arith))))

pub count_free-le : (total : ℕ) (u : ℕ → Bool) → count_free total u ≤ total
unfolding count_free
count_free-le zero u = omega arith
count_free-le (suc n) u = ground (arith, count_free-le n u)
