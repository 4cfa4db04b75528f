-- ===== src/Kernel/Start/Memory.antt =====
-- From the memory map of the firmware to the page tables of the kernel.
use ech_os.Base.{[], ℕ, ◌+◌, ◌%◌, ◌^◌, ◌≤◌, ◌<◌, leb, List, ◌∷◌, none, some, true, false}
use ech_os.Base.{◌≡◌, refl, sym, ap, ◌∙◌, arith, inl, inr, Run, ok, subst, Option-cases}
use ech_os.Pmm.{Pmm}
use ech_os.Pmm.Block.{
  PmBlock, PmType, frame_size, usable, reclaimable, acpi_reclaim, acpi_nvs, firmware, mmio,
  reserved,
}
use ech_os.Pmm.Valid.{Region, region, block_used}
use ech_os.Pmm.Layout.{layout, end_of, is_free, free_frames, frame_of}
use ech_os.Efi.Mmap.{Descriptor}
use ech_os.Efi.Pmm.{Capacity, wants_map, pm_type_of, build_loop, build_pmm}
use ech_os.Efi.Pmm.Build.{
  IsMemoryMap, Round, skipped, stopped, mapped, bare, build-Round, end_of_range, managed-region,
  build_pmm-IsValid,
}
use ech_os.Efi.Pmm.Safety.{AllAligned, Conventional, is_free-cons, build_pmm-Conventional}
use ech_os.Paging.{Machine, Outcome, done, failed, init_pml4}
use ech_os.Paging.Translate.{translate}
use ech_os.Paging.Frames.{AllFrames}
use ech_os.Paging.Span.{low48, in_pages-of}
use ech_os.Kernel.Colonel.{Framebuffer}
use ech_os.Kernel.Start.{is_left_out, fb_length, init_paging}
use ech_os.Kernel.Start.Covered.{in_regions, in_framebuffer, first_of}
use ech_os.Kernel.Start.Blocks.{AllLow}
use ech_os.Kernel.Start.Identity.{init_paging-IsIdentity}

-- A region of whole frames within 48 bits, which is mapped where frames are given out of it.
abbrev IsSound : Region → Type 0
IsSound r =
    (r.address % frame_size ≡ 0)
    × (end_of r ≤ 2 ^ 48)
    × ((s : ℕ) → r.start ≡ some s → is_left_out r.type ≡ false)

abbrev AllSound : List Region → Type 0
AllSound [] = Unit
AllSound (r ∷ rs) = IsSound r × AllSound rs

AllSound-AllFrames : (rs : List Region) → AllSound rs → AllFrames rs
AllSound-AllFrames [] s = tt
AllSound-AllFrames (r ∷ rs) s = (s.0.0, omega (arith, s.0.1), AllSound-AllFrames rs s.1)

AllSound-AllLow : (rs : List Region) → AllSound rs → AllLow rs
AllSound-AllLow [] s = tt
AllSound-AllLow (r ∷ rs) s = (s.0.1, AllSound-AllLow rs s.1)

-- The ranges of the firmware's map end within the 48 bits of an address.
abbrev pub AllShort : List Descriptor → Type 0
AllShort [] = Unit
AllShort (d ∷ ds) = (end_of_range d ≤ 2 ^ 48) × AllShort ds

wants_map-kept : (t : PmType) → wants_map t ≡ true → is_left_out t ≡ false
unfolding wants_map is_left_out
wants_map-kept usable h = refl
wants_map-kept reclaimable h = refl
wants_map-kept acpi_reclaim h = refl
wants_map-kept acpi_nvs h = refl
wants_map-kept firmware h = refl
wants_map-kept mmio h = cc
wants_map-kept reserved h = cc

build-AllSound :
    (capacity : ℕ) (ds : List Descriptor) (count next left : ℕ)
    → AllAligned ds
    → AllShort ds
    → AllSound (layout (build_loop capacity ds count next left))
build-AllSound capacity [] count next left a s = unfold build_loop in tt
build-AllSound capacity (d ∷ ds) count next left a s =
    by_round (build-Round capacity d ds count next left)
      (λ c n l. build-AllSound capacity ds c n l a.1 s.1)
  where
    by_round :
        {t : Pmm}
        → Round capacity d ds count next left t
        → ((c n l : ℕ) → AllSound (layout (build_loop capacity ds c n l)))
        → AllSound (layout t)
    by_round (skipped e) rest = rw e (rest count next left)
    by_round (stopped e) rest = rw e tt
    by_round (mapped pos wanted enough e) rest = rw e (
      subst IsSound (sym (managed-region d next (pm_type_of d.type)))
          (a.0, s.0, λ n h. wants_map-kept (pm_type_of d.type) wanted),
      rest _ _ _,
    )
    by_round (bare e) rest = rw e ((a.0, s.0, λ n h. absurd (cc)), rest _ _ _)

used-none : (b : PmBlock) (n : ℕ) → block_used b n ≡ false → (s : ℕ) × ((region b).start ≡ some s)
used-none b n h = elim (Option-cases b.bitmap) [
  | inl e ↦ absurd (ground (arith, h, e))
  | inr (m, e) ↦ (m.start, rw e refl)
]

free-in_regions :
    (p : Pmm) (x : ℕ)
    → AllSound (layout p)
    → is_free p x ≡ true
    → frame_size ≤ x
    → (in_regions (layout p) x ≡ true) × (x < 2 ^ 48)
unfolding is_free
free-in_regions [] x s h low = absurd (cc)
free-in_regions (b ∷ bs) x s h low = elim (is_free-cons b bs x h) [
  | inr tail ↦ let rest = free-in_regions bs x s.1 tail low in (ground arith, rest.1)
  | inl (here, free) ↦
      let managed = used-none b (frame_of (region b) x) free in
      let on = s.0.2 managed.0 managed.1 in
      let short : x < 2 ^ 48 = ground (arith, s.0.1) in
      let page =
        in_pages-of (first_of (region b)) (end_of (region b)) x (ground arith) (ground arith) in
      (rw (on, page) refl, short)
]

first_page-in_regions : (rs : List Region) (w : ℕ) → low48 w < frame_size → in_regions rs w ≡ false
first_page-in_regions [] w h = refl
first_page-in_regions (r ∷ rs) w h =
    let before : leb (first_of r) (low48 w) ≡ false = ground arith in
    let rest = first_page-in_regions rs w h in ground (arith, before, rest)

-- What is mapped where the kernel loads its page tables.
pub record IsMapped (ds : List Descriptor) (m : Machine) (fb : Framebuffer)
    (r : Run (Outcome × Machine)) : Type 0 where
  pub outcome : Outcome
  pub after : Machine
  pub returns : r ≡ ok (outcome, after)
  pub on_failure : outcome ≡ failed → free_frames after.physical_memory ≡ 0
  pub on_success :
      outcome ≡ done
      → (pml4 : ℕ) × (first : Machine) × (init_pml4 m ≡ ok (pml4, first))
        × ((x : ℕ)
            → is_free after.physical_memory x ≡ true
            → Conventional ds x × (translate after.words pml4 x ≡ some x))
        × (frame_size ≤ fb.buffer
            → (w : ℕ) → low48 w < frame_size
            → translate after.words pml4 w ≡ none)

-- The kernel's `init_paging` on the PMM that the boot stage fills from an aligned memory map, of
-- ranges and a framebuffer within 48 bits, returns, and fails only where the PMM has no frame left.
-- Where it succeeds, every address that the PMM can still give out is conventional memory and is
-- mapped to itself by the tables that CR3 is loaded with, and the first page is not mapped, unless
-- the framebuffer lies there.
pub init_paging-build_pmm :
    (storage : Capacity) (ds : List Descriptor) (words : ℕ → ℕ) (fb : Framebuffer)
    → IsMemoryMap ds
    → AllAligned ds
    → AllShort ds
    → fb.buffer + fb_length fb ≤ 2 ^ 48
    → let m : Machine = record { physical_memory = build_pmm storage ds; words = words } in
      IsMapped ds m fb (init_paging m fb)
unfolding build_pmm
init_paging-build_pmm storage ds words fb v a s low =
    let m : Machine = record { physical_memory = build_pmm storage ds; words = words } in
    let sound = build-AllSound storage.block_capacity ds 0 0 storage.bitmap_words a s in
    let d =
      init_paging-IsIdentity m fb (build_pmm-IsValid storage ds v) (AllSound-AllFrames _ sound)
        (AllSound-AllLow _ sound) low in
    record {
      outcome = d.outcome;
      after = d.after;
      returns = d.returns;
      on_failure = λ e. elim (d.why_failed e) [
        | inl none_ ↦ none_
        | inr zero_ ↦ absurd (omega (arith, (build_pmm-Conventional storage ds 0 v a zero_).0))
      ];
      on_success = λ e.
          let on = d.mapped e in
          (
            on.0,
            on.1,
            on.2,
            λ x free.
                let was_free = d.kept.shrinks x free in
                let from = build_pmm-Conventional storage ds x v a was_free in
                let here = free-in_regions (build_pmm storage ds) x sound was_free from.0 in
                (from.1, on.3 x ∙ rw here.0 (ap some (omega (arith, here.1)))),
            λ above w h.
                let regions = first_page-in_regions (layout (build_pmm storage ds)) w h in
                let screen : in_framebuffer fb w ≡ false = ground (arith, above) in
                on.3 w ∙ rw (regions, screen) refl,
          );
    }
