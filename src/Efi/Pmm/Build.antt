-- ===== src/Efi/Pmm/Build.antt =====
-- The PMM that `build_pmm` fills is valid, and hands out conventional memory only.
use ech_os.Base.{ℕ, ◌+◌, ◌-◌, ◌*◌, ◌≤◌, ◌<◌, ◌==◌, true}
use ech_os.Base.{List, [], ◌∷◌, ◌⊎◌}
use ech_os.Base.{◌≡◌, refl, sym, ap, subst, arith, Bool-cases, inl, inr, none, some}
use ech_os.Pmm.{Pmm}
use ech_os.Pmm.Block.{PmType, PmBlock, frame_size, frame_map_size, usable, reclaimable}
use ech_os.Pmm.Block.{acpi_reclaim, acpi_nvs, firmware, mmio, reserved}
use ech_os.Pmm.Valid.{IsValid, Region, region}
use ech_os.Pmm.Layout.{PmmIsValid, Apart, layout}
use ech_os.Efi.Mmap.{Descriptor}
use ech_os.Efi.Pmm.{
  Capacity, managed_block, new_block, wants_map, pm_type_of, gets_map, build_loop, build_pmm,
}
use ech_os.Efi.Pmm.BlockValid.{Fits, unmanaged-IsValid, usable-IsValid, reclaimable-IsValid}

abbrev pub end_of_range : Descriptor → ℕ
end_of_range d = d.physical_start + d.number_of_pages * frame_size

abbrev pub Separate : Descriptor → List Descriptor → Type 0
Separate d [] = Unit
Separate d (e ∷ es) =
    ((end_of_range d ≤ e.physical_start) ⊎ (end_of_range e ≤ d.physical_start)) × Separate d es

-- What the firmware promises of its map: ranges fit the address space and do not overlap.
abbrev pub IsMemoryMap : List Descriptor → Type 0
IsMemoryMap [] = Unit
IsMemoryMap (d ∷ ds) = Fits d × Separate d ds × IsMemoryMap ds

managed-IsValid :
    (d : Descriptor) (next : ℕ) (type : PmType)
    → Fits d
    → 0 < d.number_of_pages
    → wants_map type ≡ true
    → IsValid (managed_block d type next)
unfolding wants_map
managed-IsValid d next usable fits pos h = usable-IsValid d next fits pos
managed-IsValid d next reclaimable fits pos h = reclaimable-IsValid d next fits
managed-IsValid d next acpi_reclaim fits pos h = cc
managed-IsValid d next acpi_nvs fits pos h = cc
managed-IsValid d next firmware fits pos h = cc
managed-IsValid d next mmio fits pos h = cc
managed-IsValid d next reserved fits pos h = cc

-- The region of a managed block.
abbrev pub region_of : Descriptor → (next_map : ℕ) → Region
region_of d next_map = record {
  address = d.physical_start;
  frames_total = d.number_of_pages;
  type = pm_type_of d.type;
  attributes = d.attribute;
  start = some next_map;
}

pub managed-region :
    (d : Descriptor) (next : ℕ) (type : PmType)
    → region (managed_block d type next) ≡ region_of d next
unfolding managed_block
managed-region d next reclaimable = refl
managed-region d next _ = refl

-- One round of the loop, by the way that it takes.
pub data Round (capacity : ℕ) (d : Descriptor) (ds : List Descriptor) (count next left : ℕ)
    (r : Pmm) : Type 0 where
  skipped : r ≡ build_loop capacity ds count next left → Round capacity d ds count next left r
  stopped : r ≡ [] → Round capacity d ds count next left r
  mapped :
      0 < d.number_of_pages
      → wants_map (pm_type_of d.type) ≡ true
      → frame_map_size d.number_of_pages ≤ left
      → r
        ≡ managed_block d (pm_type_of d.type) next
          ∷ build_loop capacity ds
              (count + 1)
              (next + frame_map_size d.number_of_pages)
              (left - frame_map_size d.number_of_pages)
      → Round capacity d ds count next left r
  bare :
      r ≡ new_block d none 0 ∷ build_loop capacity ds (count + 1) next left
      → Round capacity d ds count next left r

pub build-Round :
    (capacity : ℕ) (d : Descriptor) (ds : List Descriptor) (count next left : ℕ)
    → Round capacity d ds count next left (build_loop capacity (d ∷ ds) count next left)
unfolding build_loop
build-Round capacity d ds count next left = elim (Bool-cases (d.number_of_pages == 0)) [
  | inl empty ↦ skipped (rw (empty, build_loop))
  | inr pages ↦ elim (Bool-cases (count == capacity)) [
    | inl full ↦ stopped (rw (pages, build_loop) (rw full))
    | inr room ↦ elim (Bool-cases (gets_map d left)) [
      | inl given ↦
          let wanted : wants_map (pm_type_of d.type) ≡ true = unfold gets_map in ground arith in
          let enough : frame_map_size d.number_of_pages ≤ left = unfold gets_map in ground arith in
          mapped (ground arith) wanted enough (rw (pages, build_loop) (rw room (rw given)))
      | inr refused ↦ bare (rw (pages, build_loop) (rw room (rw refused)))
    ]
  ]
]

build-Apart :
    (r : Region) (d : Descriptor) (capacity : ℕ) (ds : List Descriptor) (count next left : ℕ)
    → r.address ≡ d.physical_start
    → r.frames_total ≡ d.number_of_pages
    → Separate d ds
    → Apart r (layout (build_loop capacity ds count next left))
build-Apart r d capacity [] count next left p q s = unfold build_loop in tt
build-Apart r d capacity (e ∷ es) count next left p q s =
    by_round (build-Round capacity e es count next left)
      (λ c n l. build-Apart r d capacity es c n l p q s.1)
  where
    by_round :
        {t : Pmm}
        → Round capacity e es count next left t
        → ((c n l : ℕ) → Apart r (layout (build_loop capacity es c n l)))
        → Apart r (layout t)
    by_round (skipped h) rest = rw h (rest count next left)
    by_round (stopped h) rest = rw h tt
    by_round (mapped pos wanted enough h) rest = rw h (
        subst
          (λ t. Apart r (
            t
            ∷ layout (
                build_loop capacity es (count + 1) (next + frame_map_size e.number_of_pages)
                  (left - frame_map_size e.number_of_pages))))
          (sym (managed-region e next (pm_type_of e.type))) (ground (arith, s.0), rest _ _ _))
    by_round (bare h) rest = rw h (ground (arith, s.0), rest _ _ _)

PmmIsValid-cons :
    (b : PmBlock) (bs : Pmm)
    → IsValid b
    → Apart (region b) (layout bs)
    → PmmIsValid bs
    → PmmIsValid (b ∷ bs)
PmmIsValid-cons b bs v apart vs = record {
  blocks_valid = (v, vs.blocks_valid);
  disjoint = (apart, vs.disjoint);
}

build-IsValid :
    (capacity : ℕ) (ds : List Descriptor) (count next left : ℕ)
    → IsMemoryMap ds
    → PmmIsValid (build_loop capacity ds count next left)
build-IsValid capacity [] count next left h =
    unfold build_loop in record { blocks_valid = tt; disjoint = tt }
build-IsValid capacity (d ∷ ds) count next left h =
    by_round (build-Round capacity d ds count next left)
      (λ c n l. build-IsValid capacity ds c n l h.2)
  where
    by_round :
        {t : Pmm}
        → Round capacity d ds count next left t
        → ((c n l : ℕ) → PmmIsValid (build_loop capacity ds c n l))
        → PmmIsValid t
    by_round (skipped e) rest = rw e (rest count next left)
    by_round (stopped e) rest = rw e (record { blocks_valid = tt; disjoint = tt })
    by_round (mapped pos wanted enough e) rest = rw e (
        PmmIsValid-cons _ _ (managed-IsValid d next (pm_type_of d.type) h.0 pos wanted)
          (build-Apart (region (managed_block d (pm_type_of d.type) next)) d capacity ds _ _ _
            (ap (λ (r : Region). r.address) (managed-region d next (pm_type_of d.type)))
            (ap (λ (r : Region). r.frames_total) (managed-region d next (pm_type_of d.type))) h.1)
          (rest _ _ _))
    by_round (bare e) rest = rw e (
        PmmIsValid-cons _ _ (unmanaged-IsValid d h.0)
          (build-Apart (region (new_block d none 0)) d capacity ds _ _ _ refl refl h.1)
          (rest _ _ _))

pub build_pmm-IsValid :
    (storage : Capacity) (ds : List Descriptor) → IsMemoryMap ds → PmmIsValid (build_pmm storage ds)
unfolding build_pmm
build_pmm-IsValid storage ds h = build-IsValid storage.block_capacity ds 0 0 storage.bitmap_words h
