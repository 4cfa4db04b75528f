-- ===== src/Efi/Mmap/PageCount.antt =====
-- efi-stage/efi_mmap.c: `getPageCountByType`.
use ech_os.Base.{
  ℕ, zero, suc, ◌*◌, ◌≤◌, refl, Option, none, some, ◌+◌, ◌%◌, ◌^◌, ◌<◌, u32, List, [], ◌∷◌, length,
  ◌≡◌, arith, Bool, true, false, if◌then◌else◌, Bool-cases, inl, inr,
}
use mathlib.Core.Logic.{ite}
use native.Mathlib.Decide.{ℕ_discrete}
use ech_os.Efi.Mmap.{Descriptor, EfiMmap, EfiMemoryType, descriptors}
use ech_os.Efi.Mmap.Visited.{entries, descriptors-entries}
use ech_os.Efi.Firmware.{
  Event, printed, M, ret, print, ◌>>=◌, ◌>>◌, Firmware, History, descriptor_at,
}

pub EfiMemoryType-discrete : Discrete EfiMemoryType
EfiMemoryType-discrete = hlevel ℕ_discrete

unfoldable pub is_type : EfiMemoryType → EfiMemoryType → Bool
is_type a b = ite (EfiMemoryType-discrete a b) true false

-- The loop; `total_pages` is a `uint32_t`.
unfoldable pub count_pages : EfiMemoryType → List Descriptor → (total_pages : ℕ) → M ℕ
unfolding is_type
count_pages type [] total_pages = ret total_pages
count_pages type (desc ∷ ds) total_pages =
    let skipped = count_pages type ds total_pages in
    let counted = count_pages type ds (u32 (total_pages + desc.number_of_pages)) in
    if is_type desc.type type
    then (do print "Physical start: 0x%lx, Virtual start: 0x%lx    %d pages\n"; counted)
    else skipped

-- `none` where the loop does not end.
abbrev pub count_found : EfiMemoryType → Option (List Descriptor) → M (Option ℕ)
count_found type none = ret none
count_found type (some ds) = do total_pages ← count_pages type ds 0; ret (some total_pages)

unfoldable pub get_page_count_by_type : EfiMmap → EfiMemoryType → M (Option ℕ)
unfolding count_pages
get_page_count_by_type mmap type = do read ← descriptor_at; count_found type (descriptors read mmap)

-- The descriptors of a type, and the pages of a list of them.
unfoldable pub of_type : EfiMemoryType → List Descriptor → List Descriptor
of_type type [] = []
of_type type (desc ∷ ds) =
    if is_type desc.type type then desc ∷ of_type type ds else of_type type ds

unfoldable pub page_sum : List Descriptor → ℕ
page_sum [] = 0
page_sum (desc ∷ ds) = desc.number_of_pages + page_sum ds

-- The line that is printed for a descriptor, and the log behind `n` such lines.
abbrev pub line : Event
line = printed "Physical start: 0x%lx, Virtual start: 0x%lx    %d pages\n"

abbrev pub lines : (n : ℕ) → History → History
lines zero h = h
lines (suc n) h = lines n (line ∷ h)

count_pages_lem :
    (type : EfiMemoryType) (ds : List Descriptor) (total : ℕ) (fw : Firmware) (h : History)
    → total < 2 ^ 32
    → ((count_pages type ds total fw h).0 ≡ (total + page_sum (of_type type ds)) % 2 ^ 32)
      × ((count_pages type ds total fw h).1 ≡ lines (length (of_type type ds)) h)
unfolding count_pages of_type page_sum
count_pages_lem type [] total fw h small = (omega arith, refl)
count_pages_lem type (desc ∷ ds) total fw h small = elim (Bool-cases (is_type desc.type type)) [
  | inl e ↦
      let next = u32 (total + desc.number_of_pages) in
      let rest = count_pages_lem type ds next fw (line ∷ h) (omega arith) in
      rw e (omega (arith, rest.0), rest.1)
  | inr e ↦ rw e (count_pages_lem type ds total fw h small)
]

-- On a map of `n` descriptors, whose size is not 0 and which leaves a descriptor's room to the end of
-- the address space, `getPageCountByType` returns the number of pages, modulo 2^32, of those of the
-- type among the descriptors at each multiple of the size, and prints its line once for each of
-- these and nothing else.
pub get_page_count_by_type_lem :
    (mmap : EfiMmap) (type : EfiMemoryType) (n : ℕ) (fw : Firmware) (h : History)
    → 0 < mmap.descriptor_size
    → mmap.end ≡ mmap.start + n * mmap.descriptor_size
    → mmap.end + mmap.descriptor_size ≤ 2 ^ 64
    → let ds = of_type type (entries (fw.descriptor_at h) n mmap.start mmap.descriptor_size) in
      get_page_count_by_type mmap type fw h ≡ (some (page_sum ds % 2 ^ 32), lines (length ds) h)
unfolding get_page_count_by_type
get_page_count_by_type_lem mmap type n fw h pos whole fits =
    let ds = entries (fw.descriptor_at h) n mmap.start mmap.descriptor_size in
    let count = count_pages_lem type ds 0 fw h (omega arith) in
    let total : (count_pages type ds 0 fw h).0 ≡ page_sum (of_type type ds) % 2 ^ 32 =
      omega (arith, count.0) in
    rw (descriptors-entries (fw.descriptor_at h) mmap n pos whole fits, total, count.1) refl
