-- ===== src/Efi/Pmm/BlockValid.antt =====
-- Each block that `build_pmm` fills is valid.
use ech_os.Base.{ℕ, zero, suc, ◌+◌, ◌*◌, ◌^◌, ◌≤◌, ◌<◌, ◌==◌, leb, Bool, true, false}
use ech_os.Base.{
  if◌then◌else◌, sub64, all_ones, replicate, length-replicate, get_or-replicate, get_or-past,
}
use ech_os.Base.{◌≡◌, refl, sym, ◌∙◌, arith, Bool-cases, lt-or-le, inl, inr, none}
use ech_os.Pmm.Block.{frame_size, frame_map_size, usable, reclaimable}
use ech_os.Pmm.Usage.{mark, count_free, count_free-ext, count_free-none, count_free-mark_used}
use ech_os.Pmm.Valid.{IsValid}
use ech_os.Efi.Mmap.{Descriptor}
use ech_os.Efi.Pmm.{managed_block, new_block}
use ech_os.Efi.Pmm.Words.{
  fresh_view, length-usable_words, used-usable_words, words_fit-usable_words,
}
use ech_os.Efi.Pmm.Words.{used-replicate_ones}

-- What the firmware promises of one descriptor: its range fits the address space.
abbrev pub Fits : Descriptor → Type 0
Fits d = d.physical_start + d.number_of_pages * frame_size < 2 ^ 64

count_free-all : (n : ℕ) → (total : ℕ) → n ≤ total → count_free n (leb total) ≡ n
unfolding count_free
count_free-all zero total h = refl
count_free-all (suc n) total h =
    let at : leb total n ≡ false = ground arith in
    rw at (omega (arith, count_free-all n total (omega arith)))

pub unmanaged-IsValid : (d : Descriptor) → Fits d → IsValid (new_block d none 0)
unmanaged-IsValid d fits = record { fits = fits; map_valid = refl }

module _ (d : Descriptor) (next : ℕ) (fits : Fits d) where
  pub reclaimable-IsValid : IsValid (managed_block d reclaimable next)
  unfolding managed_block
  reclaimable-IsValid = record {
    fits = fits;
    map_valid = record {
      sized = length-replicate (frame_map_size d.number_of_pages) all_ones ∙ omega arith;
      words_fit = λ i. elim (lt-or-le i (frame_map_size d.number_of_pages)) [
        | inl low ↦
            rw (get_or-replicate (frame_map_size d.number_of_pages) all_ones all_ones i low)
              (omega arith)
        | inr high ↦
            rw
              (get_or-past (replicate (frame_map_size d.number_of_pages) all_ones) i all_ones
                (rw length-replicate high))
              (omega arith)
      ];
      tail_used = λ n p. used-replicate_ones (frame_map_size d.number_of_pages) n;
      counted = sym (
          count_free-none d.number_of_pages _
            (λ n p. used-replicate_ones (frame_map_size d.number_of_pages) n));
    };
  }

  module _ (pos : 0 < d.number_of_pages) where
    small : d.number_of_pages * 4096 < 2 ^ 64
    small = omega arith

    -- As the model marks the first frame, or not.
    view-eq :
        (b : Bool)
        → (d.physical_start == 0) ≡ b
        → count_free d.number_of_pages (fresh_view d.number_of_pages d.physical_start)
          ≡ count_free d.number_of_pages
              (if b then mark (leb d.number_of_pages) 0 true else leb d.number_of_pages)
    view-eq b e = count_free-ext d.number_of_pages _ _ (λ n p. rw e (same b n))
      where
        same :
            (b : Bool) (n : ℕ)
            → (if b then mark (leb d.number_of_pages) 0 true n else leb d.number_of_pages n)
              ≡ (if b then mark (leb d.number_of_pages) 0 true else leb d.number_of_pages) n
        same true n = refl
        same false n = refl

    fresh_count :
        (if d.physical_start == 0 then sub64 d.number_of_pages 1 else d.number_of_pages)
        ≡ count_free d.number_of_pages (fresh_view d.number_of_pages d.physical_start)
    fresh_count = elim (Bool-cases (d.physical_start == 0)) [
      | inl zero_ ↦
          rw (view-eq true zero_, zero_)
            (omega (
              arith,
              count_free-mark_used d.number_of_pages (leb d.number_of_pages) 0 pos (ground arith),
              count_free-all d.number_of_pages d.number_of_pages (omega arith),
            ))
      | inr other ↦
          rw (view-eq false other, other)
            (sym (count_free-all d.number_of_pages d.number_of_pages (omega arith)))
    ]

    pub usable-IsValid : IsValid (managed_block d usable next)
    unfolding managed_block
    usable-IsValid = record {
      fits = fits;
      map_valid = record {
        sized = length-usable_words d.number_of_pages pos small d.physical_start ∙ omega arith;
        words_fit = words_fit-usable_words d.number_of_pages pos small d.physical_start;
        tail_used =
            λ n p. used-usable_words d.number_of_pages pos small d.physical_start n ∙ ground arith;
        counted =
            fresh_count
            ∙ sym (
                count_free-ext d.number_of_pages _ _
                  (λ n p. used-usable_words d.number_of_pages pos small d.physical_start n));
      };
    }
