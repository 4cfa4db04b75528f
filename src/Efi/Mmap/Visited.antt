-- ===== src/Efi/Mmap/Visited.antt =====
-- The descriptors of a memory map, without the loop.
use ech_os.Base.{ℕ, zero, suc, ◌+◌, ◌-◌, ◌*◌, ◌^◌, ◌≤◌, ◌<◌, ltb, u64, List, [], ◌∷◌, some}
use ech_os.Base.{◌≡◌, true, false, refl, arith}
use ech_os.Efi.Mmap.{Descriptor, EfiMmap, walk, descriptors}

-- `n` descriptors of `size` bytes, from `offset` on.
unfoldable pub entries : (read : ℕ → Descriptor) (n offset size : ℕ) → List Descriptor
entries read zero offset size = []
entries read (suc n) offset size = read offset ∷ entries read n (offset + size) size

walk-entries :
    (read : ℕ → Descriptor) (fuel n offset end size : ℕ)
    → n < fuel
    → end ≤ offset + n * size
    → offset + n * size < end + size
    → end + size ≤ 2 ^ 64
    → walk read fuel offset end size ≡ some (entries read n offset size)
unfolding walk entries
walk-entries read zero n offset end size few covers last fits = absurd (omega arith)
walk-entries read (suc fuel) zero offset end size few covers last fits =
    let behind : ltb offset end ≡ false = ground (arith, covers) in rw (walk, behind) refl
walk-entries read (suc fuel) (suc n) offset end size few covers last fits =
    let more : suc n * size ≡ n * size + size = grind arith in
    let inside : ltb offset end ≡ true = ground (arith, last, more) in
    let next : u64 (offset + size) ≡ offset + size = ground (arith, last, more, fits) in
    let rest =
      walk-entries read fuel n (offset + size) end size (omega arith) (omega (arith, covers, more))
        (omega (arith, last, more)) fits in
    rw (walk, inside, next, rest) refl

pub descriptors-entries :
    (read : ℕ → Descriptor) (mmap : EfiMmap) (n : ℕ)
    → 0 < mmap.descriptor_size
    → mmap.end ≡ mmap.start + n * mmap.descriptor_size
    → mmap.end + mmap.descriptor_size ≤ 2 ^ 64
    → descriptors read mmap ≡ some (entries read n mmap.start mmap.descriptor_size)
unfolding descriptors
descriptors-entries read mmap n pos whole fits =
    let few : n ≤ n * mmap.descriptor_size = at_least n mmap.descriptor_size pos in
    walk-entries read (mmap.end - mmap.start + 1) n mmap.start mmap.end mmap.descriptor_size
      (omega (arith, few, whole)) (omega (arith, whole)) (omega (arith, whole, pos)) fits
  where
    at_least : (n size : ℕ) → 0 < size → n ≤ n * size
    at_least n zero h = absurd (omega arith)
    at_least n (suc size) h = let e : n * suc size ≡ n * size + n = grind arith in omega (arith, e)
