-- ===== src/Paging/Kept.antt =====
-- What building page tables does to the PMM: it only takes frames, and it never faults.
use ech_os.Base.{ℕ, ◌==◌, Bool-cases, inl, inr, ◌⊎◌, true, false, ◌≤◌, ◌&&◌, not}
use ech_os.Base.{Run, ok, ◌>>=◌, ◌≡◌, refl, ◌∙◌, arith}
use ech_os.Pmm.{Pmm}
use ech_os.Pmm.Block.{no_frame}
use ech_os.Pmm.Layout.{PmmIsValid, layout, is_free, free_frames}
use ech_os.Pmm.FrameAllocate.{Taken, none_free, frame, frame_allocate_lem}
use ech_os.Paging.{Machine, done, failed, alloc_table, new_table, next_table, put_entry}
use ech_os.Paging.{directory_of, map_in_directory, map_page, map_large_page, put_large_page}
use ech_os.Paging.{has_bit, entry_of, present_bit, page_size_bit, index_of}

-- From `p` to `p'` frames were taken, none became free, and the blocks stayed.
pub record Kept (p p' : Pmm) : Type 0 where
  pub valid : PmmIsValid p'
  pub same_layout : layout p' ≡ layout p
  pub shrinks : (x : ℕ) → is_free p' x ≡ true → is_free p x ≡ true
  pub fewer : free_frames p' ≤ free_frames p

pub Kept-refl : (p : Pmm) → PmmIsValid p → Kept p p
Kept-refl p v = record { valid = v; same_layout = refl; shrinks = λ x e. e; fewer = omega arith }

pub Kept-trans : {p q r : Pmm} → Kept p q → Kept q r → Kept p r
Kept-trans a b = record {
  valid = b.valid;
  same_layout = b.same_layout ∙ a.same_layout;
  shrinks = λ x e. a.shrinks x (b.shrinks x e);
  fewer = omega (arith, a.fewer, b.fewer);
}

-- Why no frame was given out between `p` and `p'`: there is none left, or the one at address 0 was
-- given out, which counts as NULL.
abbrev pub Starved : (p p' : Pmm) → Type 0
Starved p p' = (free_frames p' ≡ 0) ⊎ (is_free p 0 ≡ true)

pub Starved-Kept : (p q r : Pmm) → Kept p q → Starved q r → Starved p r
Starved-Kept p q r k (inl e) = inl e
Starved-Kept p q r k (inr e) = inr (k.shrinks 0 e)

-- A run that returns, with a PMM kept from `p` on.
pub record Returns {A : Type 0} (p : Pmm) (r : Run (A × Machine)) : Type 0 where
  pub value : A
  pub after : Machine
  pub returns : r ≡ ok (value, after)
  pub kept : Kept p after.physical_memory

pub Returns-ok :
    {A : Type 0} (value : A) (m : Machine)
    → PmmIsValid m.physical_memory
    → Returns m.physical_memory (ok (value, m))
Returns-ok value m v = record {
  value = value;
  after = m;
  returns = refl;
  kept = Kept-refl m.physical_memory v;
}

pub Returns-bind :
    {A B : Type 0} {p : Pmm} {r : Run (A × Machine)} (k : A × Machine → Run (B × Machine))
    → Returns p r
    → ((value : A) (m : Machine)
        → PmmIsValid m.physical_memory
        → Returns m.physical_memory (k (value, m)))
    → Returns p (r >>= k)
Returns-bind k s next =
    let rest = next s.value s.after s.kept.valid in
    rw s.returns (record {
      value = rest.value;
      after = rest.after;
      returns = rest.returns;
      kept = Kept-trans s.kept rest.kept;
    })

-- The same, where what follows needs the blocks to be those of `p`.
pub Returns-then :
    {A B : Type 0} {p : Pmm} {r : Run (A × Machine)} (k : A × Machine → Run (B × Machine))
    → Returns p r
    → ((value : A) (m : Machine)
        → Kept p m.physical_memory
        → Returns m.physical_memory (k (value, m)))
    → Returns p (r >>= k)
Returns-then k s next =
    let rest = next s.value s.after s.kept in
    rw s.returns (record {
      value = rest.value;
      after = rest.after;
      returns = rest.returns;
      kept = Kept-trans s.kept rest.kept;
    })

pub Taken-Kept : {p p' : Pmm} {address : ℕ} → Taken p address p' → Kept p p'
Taken-Kept t = record {
  valid = t.valid;
  same_layout = t.same_layout;
  shrinks = λ x h. ground (arith, t.now x, t.was_free x);
  fewer = omega (arith, t.one_less);
}

pub alloc_table-Returns :
    (m : Machine) → PmmIsValid m.physical_memory → Returns m.physical_memory (alloc_table m)
unfolding alloc_table
alloc_table-Returns m v = elim (frame_allocate_lem m.physical_memory v) [
  | none_free _ e ↦ rw e (Returns-ok 0 m v)
  | frame address pmm t e ↦
      let real : (address == no_frame) ≡ false = ground (arith, t.below) in
      rw (e, real) (record { value = address; after = _; returns = refl; kept = Taken-Kept t })
]

new_table-Returns :
    (m : Machine) (table index flags : ℕ)
    → PmmIsValid m.physical_memory
    → Returns m.physical_memory (new_table m table index flags)
unfolding new_table put_entry
new_table-Returns m table index flags v = Returns-bind _ (alloc_table-Returns m v) (λ next m' w.
    elim (Bool-cases (next == 0)) [
      | inl e ↦ rw e (Returns-ok 0 m' w)
      | inr e ↦ rw e (Returns-ok next _ w)
    ])

pub next_table-Returns :
    (m : Machine) (table index flags : ℕ)
    → PmmIsValid m.physical_memory
    → Returns m.physical_memory (next_table m table index flags)
unfolding next_table put_entry
next_table-Returns m table index flags v =
    elim (Bool-cases (has_bit (entry_of m table index) present_bit)) [
      | inr e ↦ rw e (new_table-Returns m table index flags v)
      | inl e ↦ elim (Bool-cases (has_bit (entry_of m table index) page_size_bit)) [
        | inl l ↦ rw (e, l) (Returns-ok 0 m v)
        | inr l ↦ rw (e, l) (Returns-ok _ _ v)
      ]
    ]

directory_of-Returns :
    (m : Machine) (pml4 vaddr flags : ℕ)
    → PmmIsValid m.physical_memory
    → Returns m.physical_memory (directory_of m pml4 vaddr flags)
unfolding directory_of
directory_of-Returns m pml4 vaddr flags v =
    Returns-bind _ (next_table-Returns m pml4 (index_of 39 vaddr) flags v) (λ pdp m' w.
      elim (Bool-cases (pdp == 0)) [
        | inl e ↦ rw e (Returns-ok 0 m' w)
        | inr e ↦ rw e (next_table-Returns m' pdp (index_of 30 vaddr) flags w)
      ])

map_in_directory-Returns :
    (m : Machine) (pd vaddr paddr flags : ℕ)
    → PmmIsValid m.physical_memory
    → Returns m.physical_memory (map_in_directory m pd vaddr paddr flags)
unfolding map_in_directory put_entry
map_in_directory-Returns m pd vaddr paddr flags v =
    let entry = entry_of m pd (index_of 21 vaddr) in
    elim (Bool-cases (has_bit entry present_bit && has_bit entry page_size_bit)) [
      | inl e ↦ rw e (Returns-ok _ m v)
      | inr e ↦ rw e (
          Returns-bind _ (next_table-Returns m pd (index_of 21 vaddr) flags v) (λ pt m' w.
            elim (Bool-cases (pt == 0)) [
              | inl z ↦ rw z (Returns-ok failed m' w)
              | inr z ↦ rw z (Returns-ok done _ w)
            ]))
    ]

pub map_page-Returns :
    (m : Machine) (pml4 vaddr paddr flags : ℕ)
    → PmmIsValid m.physical_memory
    → Returns m.physical_memory (map_page m pml4 vaddr paddr flags)
unfolding map_page
map_page-Returns m pml4 vaddr paddr flags v =
    Returns-bind _ (directory_of-Returns m pml4 vaddr flags v) (λ pd m' w.
      elim (Bool-cases (pd == 0)) [
        | inl e ↦ rw e (Returns-ok failed m' w)
        | inr e ↦ rw e (map_in_directory-Returns m' pd vaddr paddr flags w)
      ])

put_large_page-Returns :
    (m : Machine) (pd vaddr paddr flags : ℕ)
    → PmmIsValid m.physical_memory
    → Returns m.physical_memory (ok (put_large_page m pd vaddr paddr flags))
unfolding put_large_page put_entry
put_large_page-Returns m pd vaddr paddr flags v =
    let entry = entry_of m pd (index_of 21 vaddr) in
    elim (Bool-cases (has_bit entry present_bit && not (has_bit entry page_size_bit))) [
      | inl e ↦ rw e (Returns-ok failed m v)
      | inr e ↦ rw e (Returns-ok done _ v)
    ]

pub map_large_page-Returns :
    (m : Machine) (pml4 vaddr paddr flags : ℕ)
    → PmmIsValid m.physical_memory
    → Returns m.physical_memory (map_large_page m pml4 vaddr paddr flags)
unfolding map_large_page
map_large_page-Returns m pml4 vaddr paddr flags v =
    Returns-bind _ (directory_of-Returns m pml4 vaddr flags v) (λ pd m' w.
      elim (Bool-cases (pd == 0)) [
        | inl e ↦ rw e (Returns-ok failed m' w)
        | inr e ↦ rw e (put_large_page-Returns m' pd vaddr paddr flags w)
      ])
