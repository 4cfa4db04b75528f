-- ===== src/Efi/Main/Tables.antt =====
-- The table that `get_rsdp2` returns.
use ech_os.Base.{
  ℕ, zero, suc, ◌+◌, ◌^◌, ◌<◌, ◌≤◌, none, some, List, [], ◌∷◌, Bool, not, ◌==◌, if◌then◌else◌,
}
use ech_os.Base.{◌≡◌, refl, arith, inl, inr, length, get_elem?, u16, Bool-cases}
use ech_os.Efi.Main.{rsdp2_loop, get_rsdp2}

-- The first table whose GUID passes a test; NULL without one.
unfoldable pub first_table : (passes : ℕ → Bool) → List (ℕ × ℕ) → ℕ
first_table passes [] = 0
first_table passes ((vendor_guid, vendor_table) ∷ table) =
    if passes vendor_guid then vendor_table else first_table passes table

abbrev from : ℕ → List (ℕ × ℕ) → List (ℕ × ℕ)
from zero table = table
from (suc n) [] = []
from (suc n) (t ∷ table) = from n table

-- What a read at `n` gives, and what is left from there on.
data At (n : ℕ) (table : List (ℕ × ℕ)) : Type 0 where
  behind : get_elem? table n ≡ none → from n table ≡ [] → At n table
  inside :
      (t : ℕ × ℕ)
      → n < length table
      → get_elem? table n ≡ some t
      → from n table ≡ t ∷ from (suc n) table
      → At n table

at : (n : ℕ) (table : List (ℕ × ℕ)) → At n table
at zero [] = behind refl refl
at (suc n) [] = behind refl refl
at zero (t ∷ table) = inside t (omega arith) refl refl
at (suc n) (t ∷ table) = elim (at n table) [
  | behind e f ↦ behind e f
  | inside t' l e f ↦ inside t' (omega (arith, l)) e f
]

rsdp2_loop_lem :
    (compare_guid : (a b : ℕ) → ℕ) (rounds counter acpi2 : ℕ) (table : List (ℕ × ℕ))
    → length table < 2 ^ 16
    → counter ≤ length table
    → length table < rounds + counter
    → rsdp2_loop compare_guid rounds counter acpi2 table
      ≡ some (first_table (λ guid. not (compare_guid acpi2 guid == 0)) (from counter table))
unfolding rsdp2_loop first_table
rsdp2_loop_lem compare_guid zero counter acpi2 table small le enough = absurd (omega arith)
rsdp2_loop_lem compare_guid (suc rounds) counter acpi2 table small le enough =
    elim (at counter table) [
      | behind e f ↦ rw (rsdp2_loop, e, f) refl
      | inside (vendor_guid, vendor_table) l e f ↦
          let next : u16 (counter + 1) ≡ suc counter = omega (arith, l) in
          let rest =
            rsdp2_loop_lem compare_guid rounds (suc counter) acpi2 table small (omega (arith, l))
              (omega arith) in
          rw (rsdp2_loop, e, f, next, rest)
            (elim (Bool-cases (compare_guid acpi2 vendor_guid == 0)) [
              | inl b ↦ rw b refl
              | inr b ↦ rw b refl
            ])
    ]

-- Where the firmware has fewer than 2^16 tables, `get_rsdp2` returns the first one for whose GUID and
-- that of ACPI 2 `CompareGuid` gives another number than 0, and NULL if there is none.
pub get_rsdp2_lem :
    (compare_guid : (a b : ℕ) → ℕ) (acpi2 : ℕ) (table : List (ℕ × ℕ))
    → length table < 2 ^ 16
    → get_rsdp2 compare_guid acpi2 table
      ≡ some (first_table (λ guid. not (compare_guid acpi2 guid == 0)) table)
unfolding get_rsdp2
get_rsdp2_lem compare_guid acpi2 table small =
    rsdp2_loop_lem compare_guid (length table + 1) 0 acpi2 table small (omega arith) (omega arith)
