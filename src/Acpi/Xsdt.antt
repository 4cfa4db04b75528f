-- ===== src/Acpi/Xsdt.antt =====
-- `xsdt_get_table` finds the first table with the signature.
use ech_os.Base.{ℕ, zero, suc, ◌+◌, ◌*◌, ◌/◌, ◌^◌, ◌≤◌, ◌<◌, List, length, Run, ok, ◌>>=◌}
use ech_os.Base.{
  sub64, subst, ◌≡◌, refl, arith, eq-or-ne, inl, inr, if◌then◌else◌, true, false, Bool,
}
use ech_os.Strings.{memcmp, less, greater, Compared, char_less}
use ech_os.Strings.Laws.{Comparison, equal, differ, memcmp_lem}
use ech_os.Strings.Laws.{byte}
use ech_os.Acpi.{
  read_u32, read_u64, table_at, signature_at, after_memcmp, xsdt_loop, xsdt_get_table,
  sdt_header_size,
}

-- Table `i` has the signature.
pub IsNamed : (memory : ℕ → ℕ) → (xsdt i : ℕ) → (signature : List ℕ) → Type 0
IsNamed memory xsdt i signature =
    (k : ℕ) → k < 4 → byte (signature_at memory (table_at memory xsdt i)) k ≡ byte signature k

-- The first of the tables from `lo` on that has the signature, or NULL.
pub data FirstTable (memory : ℕ → ℕ) (xsdt lo n : ℕ) (signature : List ℕ) : Run ℕ → Type 0 where
  found :
      (i : ℕ)
      → lo ≤ i
      → i < n
      → IsNamed memory xsdt i signature
      → ((j : ℕ) → lo ≤ j → j < i → IsNamed memory xsdt j signature → ⊥)
      → FirstTable memory xsdt lo n signature (ok (table_at memory xsdt i))
  missing :
      ((j : ℕ) → lo ≤ j → j < n → IsNamed memory xsdt j signature → ⊥)
      → FirstTable memory xsdt lo n signature (ok 0)

FirstTable-step :
    (memory : ℕ → ℕ) (xsdt lo n : ℕ) (signature : List ℕ) (r : Run ℕ)
    → (IsNamed memory xsdt lo signature → ⊥)
    → FirstTable memory xsdt (lo + 1) n signature r
    → FirstTable memory xsdt lo n signature r
FirstTable-step memory xsdt lo n signature _ unnamed (found i h l named before) =
    found i (omega arith) l named (λ j p q. elim (eq-or-ne lo j) [
      | inl here ↦ subst (λ k. IsNamed memory xsdt k signature → ⊥) here unnamed
      | inr other ↦ before j (omega (arith, other)) q
    ])
FirstTable-step memory xsdt lo n signature _ unnamed (missing none_) = missing (λ j p q.
    elim (eq-or-ne lo j) [
      | inl here ↦ subst (λ k. IsNamed memory xsdt k signature → ⊥) here unnamed
      | inr other ↦ none_ j (omega (arith, other)) q
    ])

after_memcmp-differ :
    (b : Bool) (header : ℕ) (rest : Run ℕ)
    → after_memcmp (if b then less else greater) header rest ≡ rest
after_memcmp-differ true header rest = refl
after_memcmp-differ false header rest = refl

-- A round with the answer `c` of `memcmp` on table `lo`.
round-FirstTable :
    (memory : ℕ → ℕ) (xsdt lo n : ℕ) (signature : List ℕ) (rest : Run ℕ) (c : Run Compared)
    → lo < n
    → Comparison (signature_at memory (table_at memory xsdt lo)) signature 0 4 c
    → FirstTable memory xsdt (lo + 1) n signature rest
    → FirstTable memory xsdt lo n signature
        (c >>= λ compared. after_memcmp compared (table_at memory xsdt lo) rest)
unfolding IsNamed
round-FirstTable memory xsdt lo n signature rest _ h (equal all) r =
    found lo (omega arith) h (λ k l. all k (omega arith) l) (λ j p q. absurd (omega arith))
round-FirstTable memory xsdt lo n signature rest _ h (differ i p l all ne) r =
    let head = signature_at memory (table_at memory xsdt lo) in
    rw
      (after_memcmp-differ (char_less (byte head i) (byte signature i)) (table_at memory xsdt lo)
        rest)
      (FirstTable-step memory xsdt lo n signature rest (λ named. ne (named i l)) r)

xsdt_loop-FirstTable :
    (memory : ℕ → ℕ) (left i n xsdt : ℕ) (signature : List ℕ)
    → i + left ≡ n
    → 4 ≤ length signature
    → FirstTable memory xsdt i n signature (xsdt_loop memory left i xsdt signature)
unfolding xsdt_loop
xsdt_loop-FirstTable memory zero i n xsdt signature e h = missing (λ j p q. absurd (omega arith))
xsdt_loop-FirstTable memory (suc left) i n xsdt signature e h =
    round-FirstTable memory xsdt i n signature (xsdt_loop memory left (i + 1) xsdt signature)
      (memcmp (signature_at memory (table_at memory xsdt i)) signature 4) (omega arith)
      (memcmp_lem (signature_at memory (table_at memory xsdt i)) signature 4 (omega arith) h)
      (xsdt_loop-FirstTable memory left (i + 1) n xsdt signature (omega arith) h)

-- `xsdt_get_table` on a table of `n` pointers, whose length fits 32 bits, and with a signature of
-- four characters returns the first pointer whose table has the signature, or NULL if none has it.
pub xsdt_get_table_lem :
    (memory : ℕ → ℕ) (rsdp n : ℕ) (signature : List ℕ)
    → 4 ≤ length signature
    → read_u32 memory (read_u64 memory (rsdp + 24) + 4) ≡ sdt_header_size + 8 * n
    → sdt_header_size + 8 * n < 2 ^ 32
    → FirstTable memory
        (read_u64 memory (rsdp + 24))
        0
        n
        signature
        (xsdt_get_table memory rsdp signature)
unfolding xsdt_get_table
xsdt_get_table_lem memory rsdp n signature h size small =
    let count : sub64 (sdt_header_size + 8 * n) sdt_header_size / 8 ≡ n = omega arith in
    rw (size, count)
      (xsdt_loop-FirstTable memory n 0 n (read_u64 memory (rsdp + 24)) signature (omega arith) h)
