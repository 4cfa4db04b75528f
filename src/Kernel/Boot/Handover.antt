-- ===== src/Kernel/Boot/Handover.antt =====
-- From `efi_main` to `kernel_start`: the kernel starts on what the boot stage hands over.
use ech_os.Base.{ℕ, ◌+◌, ◌-◌, ◌^◌, ◌≤◌, List, [], ◌∷◌, u64}
use ech_os.Base.{Option, none, some, ◌∙◌, ◌≡◌, sym, ap, subst}
use ech_os.Pmm.{Pmm}
use ech_os.Pmm.Block.{frame_map_size}
use ech_os.Pmm.Layout.{PmmIsValid, layout}
use ech_os.Efi.Mmap.{Descriptor, descriptors}
use ech_os.Efi.Mmap.Fetch.{empty_mmap}
use ech_os.Efi.Firmware.{Firmware, History, exited, got_map}
use ech_os.Efi.Pmm.{Capacity, pm_type_of, build_loop, build_pmm}
use ech_os.Efi.Pmm.Build.{IsMemoryMap, end_of_range, build_pmm-IsValid}
use ech_os.Efi.Pmm.Build.{Round, skipped, stopped, mapped, bare, build-Round, managed-region}
use ech_os.Efi.Main.{BootEnd, started, efi_main}
use ech_os.Efi.Main.Ends.{
  Ended, in_kernel, at_halt, at_hang, in_a_loop, at_null, efi_main_lem, final_map, exited_on,
}
use ech_os.Paging.{page_size}
use ech_os.Kernel.Colonel.{Colonel}
use ech_os.Kernel.Start.{fb_length}
use ech_os.Kernel.Start.Laws.{AllBelow}
use ech_os.Kernel.Boot.{kernel_start}
use ech_os.Kernel.Boot.Laws.{Halted, kernel_start_lem}

abbrev listed : Option (List Descriptor) → List Descriptor
listed none = []
listed (some ds) = ds

-- The memory map that the firmware gave before it was left.
abbrev pub map_read : Firmware → History → List Descriptor
map_read fw (exited key status ∷ got_map capacity buffer reply ∷ h) = listed (
    descriptors (fw.descriptor_at (exited key status ∷ got_map capacity buffer reply ∷ h))
      (final_map buffer empty_mmap reply))
map_read fw _ = []

-- Every range ends before the last page of the address space.
abbrev pub IsLow : List Descriptor → Type 0
IsLow [] = Unit
IsLow (d ∷ ds) = (end_of_range d ≤ 2 ^ 64 - page_size) × IsLow ds

build-AllBelow :
    (capacity : ℕ) (ds : List Descriptor) (count next left : ℕ)
    → IsLow ds
    → AllBelow (layout (build_loop capacity ds count next left))
build-AllBelow capacity [] count next left low = unfold build_loop in tt
build-AllBelow capacity (d ∷ ds) count next left low =
    by_round (build-Round capacity d ds count next left)
      (λ c n l. build-AllBelow capacity ds c n l low.1)
  where
    by_round :
        {t : Pmm}
        → Round capacity d ds count next left t
        → ((c n l : ℕ) → AllBelow (layout (build_loop capacity ds c n l)))
        → AllBelow (layout t)
    by_round (skipped e) rest = rw e (rest count next left)
    by_round (stopped e) rest = rw e tt
    by_round (mapped pos wanted enough e) rest = rw e (
        subst
          (λ t. AllBelow (
            t
            ∷ layout (
                build_loop capacity ds (count + 1) (next + frame_map_size d.number_of_pages)
                  (left - frame_map_size d.number_of_pages))))
          (sym (managed-region d next (pm_type_of d.type))) (low.0, rest _ _ _))
    by_round (bare e) rest = rw e (low.0, rest _ _ _)

build_pmm-AllBelow :
    (storage : Capacity) (ds : List Descriptor)
    → IsLow ds
    → AllBelow (layout (build_pmm storage ds))
unfolding build_pmm
build_pmm-AllBelow storage ds low =
    build-AllBelow storage.block_capacity ds 0 0 storage.bitmap_words low

-- The PMM that the kernel gets.
abbrev memory_of : BootEnd → Pmm
memory_of (started system) = system.physical_memory
memory_of _ = []

by_end :
    (fw : Firmware) (r : BootEnd) (h : History) (system : Colonel) (words : ℕ → ℕ)
    → Ended fw r h
    → r ≡ started system
    → IsMemoryMap (map_read fw h)
    → IsLow (map_read fw h)
    → u64 (system.fb.buffer + fb_length system.fb) ≤ 2 ^ 64 - page_size
    → Halted system.physical_memory (
        kernel_start (record { physical_memory = system.physical_memory; words = words }) system.fb)
by_end fw _ _ system words (in_kernel sys store capacity buffer mmap reply h found s read) e is_map
      low fb =
    let ds = map_read fw (exited_on capacity buffer reply h) in
    let same : build_pmm store.capacity ds ≡ system.physical_memory =
      ap (λ o. build_pmm store.capacity (listed o)) read ∙ ap memory_of e in
    kernel_start_lem (record { physical_memory = system.physical_memory; words = words }) system.fb
      (subst PmmIsValid same (build_pmm-IsValid store.capacity ds is_map))
      (subst (λ p. AllBelow (layout p)) same (build_pmm-AllBelow store.capacity ds low)) fb
by_end fw _ _ system words (at_halt capacity buffer reply status h a b c) e is_map low fb =
    absurd cc
by_end fw _ _ system words (at_hang h) e is_map low fb = absurd cc
by_end fw _ _ system words (in_a_loop h) e is_map low fb = absurd cc
by_end fw _ _ system words (at_null h) e is_map low fb = absurd cc

-- Where `efi_main` starts the kernel, on a firmware whose last map lists ranges that do not overlap
-- and, like the framebuffer, end before the last page of the address space, `kernel_start` with what
-- it is handed comes to one of its halts, as on any valid PMM, whatever memory holds.
pub kernel_start-efi_main :
    (rounds : ℕ) (fw : Firmware) (garbage system : Colonel) (words : ℕ → ℕ)
    → (efi_main rounds garbage fw []).0 ≡ started system
    → IsMemoryMap (map_read fw (efi_main rounds garbage fw []).1)
    → IsLow (map_read fw (efi_main rounds garbage fw []).1)
    → u64 (system.fb.buffer + fb_length system.fb) ≤ 2 ^ 64 - page_size
    → Halted system.physical_memory (
        kernel_start (record { physical_memory = system.physical_memory; words = words }) system.fb)
kernel_start-efi_main rounds fw garbage system words =
    by_end fw (efi_main rounds garbage fw []).0 (efi_main rounds garbage fw []).1 system words
      (efi_main_lem rounds fw garbage [])
