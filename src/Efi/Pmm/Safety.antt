-- ===== src/Efi/Pmm/Safety.antt =====
-- What `build_pmm` hands out, and where it puts the bitmaps.
use ech_os.Base.{ℕ, ◌%◌, ◌≤◌, ◌<◌, true, false}
use ech_os.Base.{List, [], ◌∷◌, ◌⊎◌}
use ech_os.Base.{◌≡◌, ◌≢◌, refl, ap, arith, inl, inr}
use ech_os.Pmm.{Pmm}
use ech_os.Pmm.Block.{PmBlock, frame_size, frame_map_size}
use ech_os.Pmm.Valid.{Region, region, block_used}
use ech_os.Pmm.Layout.{inside, frame_of, is_free}
use ech_os.Efi.Mmap.{EfiMemoryType, Descriptor, conventional_memory, loader_code, loader_data}
use ech_os.Efi.Mmap.{boot_services_code, boot_services_data}
use ech_os.Efi.Pmm.{Capacity, managed_block, wants_map, pm_type_of, build_loop, build_pmm}
use ech_os.Efi.Pmm.BlockValid.{Fits}
use ech_os.Efi.Pmm.Words.{used-usable_words, used-replicate_ones}
use ech_os.Efi.Pmm.Build.{
  IsMemoryMap, Round, skipped, stopped, mapped, bare, build-Round, end_of_range, managed-region,
  region_of,
}

-- `x` lies in a range that the firmware reports as conventional memory.
abbrev pub Conventional : List Descriptor → ℕ → Type 0
Conventional [] x = ⊥
Conventional (d ∷ ds) x =
    ((d.type ≡ conventional_memory) × (d.physical_start ≤ x) × (x < end_of_range d))
    ⊎ Conventional ds x

abbrev pub AllAligned : List Descriptor → Type 0
AllAligned [] = Unit
AllAligned (d ∷ ds) = (d.physical_start % frame_size ≡ 0) × AllAligned ds

-- A free frame of a fresh block is conventional memory, and not frame 0.
managed-free :
    (d : Descriptor) (next n : ℕ) (type : EfiMemoryType)
    → Fits d
    → 0 < d.number_of_pages
    → block_used (managed_block d (pm_type_of type) next) n ≡ false
    → wants_map (pm_type_of type) ≡ true
    → (type ≡ conventional_memory) × ((d.physical_start ≢ 0) ⊎ (0 < n))
unfolding managed_block pm_type_of wants_map
managed-free d next n conventional_memory fits pos h w =
    let view = used-usable_words d.number_of_pages pos (omega arith) d.physical_start n in
    (refl, ground arith)
managed-free d next n loader_code fits pos h w =
    let e = used-replicate_ones (frame_map_size d.number_of_pages) n in cc
managed-free d next n loader_data fits pos h w =
    let e = used-replicate_ones (frame_map_size d.number_of_pages) n in cc
managed-free d next n boot_services_code fits pos h w =
    let e = used-replicate_ones (frame_map_size d.number_of_pages) n in cc
managed-free d next n boot_services_data fits pos h w =
    let e = used-replicate_ones (frame_map_size d.number_of_pages) n in cc
managed-free d next n _ fits pos h w = cc

-- The free addresses of a list of blocks, by its first.
pub is_free-cons :
    (b : PmBlock) (bs : Pmm) (x : ℕ)
    → is_free (b ∷ bs) x ≡ true
    → ((inside (region b) x ≡ true) × (block_used b (frame_of (region b) x) ≡ false))
      ⊎ (is_free bs x ≡ true)
unfolding is_free
is_free-cons b bs x h = ground arith

-- Free frames of a block's range, from the view of its region.
managed-Conventional :
    (d : Descriptor) (next x : ℕ) (r : Region)
    → r ≡ region_of d next
    → inside r x ≡ true
    → (block_used (managed_block d (pm_type_of d.type) next) (frame_of r x) ≡ false)
    → Fits d
    → d.physical_start % frame_size ≡ 0
    → 0 < d.number_of_pages
    → wants_map (pm_type_of d.type) ≡ true
    → (frame_size ≤ x)
      × (d.type ≡ conventional_memory)
      × (d.physical_start ≤ x)
      × (x < end_of_range d)
managed-Conventional d next x r e in_range free fits aligned pos wanted =
    let range : inside (region_of d next) x ≡ true = rw e at in_range in
    let same : frame_of r x ≡ frame_of (region_of d next) x = ap (λ t. frame_of t x) e in
    let view = managed-free d next (frame_of r x) d.type fits pos free wanted in
    (ground (arith, view.1, same), view.0, ground arith, ground arith)

module _ (capacity : ℕ) (d : Descriptor) (ds : List Descriptor) (count next left x : ℕ)
    (fits : Fits d) (aligned : d.physical_start % frame_size ≡ 0) where
  Round-Conventional :
      {t : Pmm}
      → Round capacity d ds count next left t
      → is_free t x ≡ true
      → ((c n l : ℕ)
          → is_free (build_loop capacity ds c n l) x ≡ true
          → (frame_size ≤ x) × Conventional (d ∷ ds) x)
      → (frame_size ≤ x) × Conventional (d ∷ ds) x
  Round-Conventional (skipped e) g rest = rest count next left (rw e at g)
  Round-Conventional (stopped e) g rest =
      let none_free : is_free [] x ≡ true = rw e at g in unfold is_free in cc
  Round-Conventional (mapped pos wanted enough e) g rest = elim (is_free-cons _ _ x (rw e at g)) [
    | inl (in_block, free) ↦
        let c =
          managed-Conventional d next x _ (managed-region d next (pm_type_of d.type)) in_block free
            fits aligned pos wanted in
        (c.0, inl (c.1, c.2, c.3))
    | inr tail ↦ rest _ _ _ tail
  ]
  Round-Conventional (bare e) g rest = elim (is_free-cons _ _ x (rw e at g)) [
    | inl (in_block, free) ↦ cc
    | inr tail ↦ rest _ _ _ tail
  ]

build-Conventional :
    (capacity : ℕ) (ds : List Descriptor) (count next left x : ℕ)
    → IsMemoryMap ds
    → AllAligned ds
    → is_free (build_loop capacity ds count next left) x ≡ true
    → (frame_size ≤ x) × Conventional ds x
build-Conventional capacity [] count next left x v a h = unfold build_loop is_free in cc
build-Conventional capacity (d ∷ ds) count next left x v a h =
    Round-Conventional capacity d ds count next left x v.0 a.0
      (build-Round capacity d ds count next left) h
      λ c n l g. later (build-Conventional capacity ds c n l x v.2 a.1 g)
  where
    later : (frame_size ≤ x) × Conventional ds x → (frame_size ≤ x) × Conventional (d ∷ ds) x
    later p = (p.0, inr p.1)

-- From an aligned memory map, every free address of the PMM that `build_pmm` fills lies in a range of
-- conventional memory and behind the first frame, so no frame is ever handed out at address 0.
pub build_pmm-Conventional :
    (storage : Capacity) (ds : List Descriptor) (x : ℕ)
    → IsMemoryMap ds
    → AllAligned ds
    → is_free (build_pmm storage ds) x ≡ true
    → (frame_size ≤ x) × Conventional ds x
unfolding build_pmm
build_pmm-Conventional storage ds x v a h =
    build-Conventional storage.block_capacity ds 0 0 storage.bitmap_words x v a h
