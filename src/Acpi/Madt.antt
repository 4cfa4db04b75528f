-- ===== src/Acpi/Madt.antt =====
-- What `madt_get_processor_local_apic_count` counts, and when it ends.
use ech_os.Base.{ℕ, zero, suc, ◌+◌, ◌-◌, ◌^◌, ◌≤◌, ◌<◌, ◌==◌, ltb, if◌then◌else◌, u64, ok, fault}
use ech_os.Base.{List, [], ◌∷◌, length, ◌≡◌, refl, ap, ◌∙◌, arith, true, false}
use ech_os.Acpi.{madt_loop, madt_entries_size, madt_get_processor_local_apic_count, apic_size}

-- The records from `offset` on, which is `pos` bytes behind the first, are of these types and fill
-- the `size` bytes of them.
pub data Records (byte : ℕ → ℕ) (size : ℕ) : (offset pos : ℕ) → List ℕ → Type 0 where
  ended : (offset : ℕ) → Records byte size offset size []
  record_at :
      (offset pos : ℕ) (types : List ℕ)
      → 0 < byte (offset + 1)
      → pos + byte (offset + 1) ≤ size
      → Records byte size (offset + byte (offset + 1)) (pos + byte (offset + 1)) types
      → Records byte size offset pos (byte offset ∷ types)

-- The processors among them.
unfoldable pub processors : List ℕ → ℕ
processors [] = 0
processors (type ∷ types) = if type == 0 then processors types + 1 else processors types

processors-length : (types : List ℕ) → processors types ≤ length types
unfolding processors
processors-length [] = omega arith
processors-length (type ∷ types) = ground (arith, processors-length types)

Records-length :
    {byte : ℕ → ℕ} {size offset pos : ℕ} {types : List ℕ}
    → Records byte size offset pos types
    → pos + length types ≤ size
Records-length (ended offset) = omega arith
Records-length (record_at offset pos types some_ fits rest) =
    omega (arith, some_, Records-length rest)

madt_loop-Records :
    (byte : ℕ → ℕ) (size left offset pos count : ℕ) {types : List ℕ}
    → Records byte size offset pos types
    → size < pos + left
    → count + length types < 2 ^ 64
    → offset + (size - pos) < 2 ^ 64
    → size < 2 ^ 64
    → madt_loop byte left offset pos size count ≡ ok (count + processors types)
unfolding madt_loop processors
madt_loop-Records byte size zero offset pos count r room small inside s =
    absurd (omega (arith, Records-length r))
madt_loop-Records byte size (suc left) offset _ count (ended _) room small inside s =
    let e : ltb size size ≡ false = ground arith in rw e (ap ok (omega arith))
madt_loop-Records byte size (suc left) offset pos count (record_at _ _ types some_ fits rest) room
      small inside s =
    let e : ltb pos size ≡ true = ground arith in
    let next : u64 (offset + byte (offset + 1)) ≡ offset + byte (offset + 1) = omega arith in
    let further : u64 (pos + byte (offset + 1)) ≡ pos + byte (offset + 1) = omega arith in
    rw (e, next, further)
      (madt_loop-Records byte size left (offset + byte (offset + 1)) (pos + byte (offset + 1)) _
          rest (omega arith) (ground arith) (omega arith) s
        ∙ ap ok (ground arith))

-- Where the records fill a table that lies in the address space, and each has a length,
-- `madt_get_processor_local_apic_count` returns the number of those whose type is 0.
pub madt_get_processor_local_apic_count_lem :
    (byte : ℕ → ℕ) (apic : ℕ) (types : List ℕ)
    → Records byte (madt_entries_size byte apic) (apic + apic_size) 0 types
    → apic + apic_size + madt_entries_size byte apic < 2 ^ 64
    → madt_get_processor_local_apic_count byte apic ≡ ok (processors types)
unfolding madt_get_processor_local_apic_count
madt_get_processor_local_apic_count_lem byte apic types r inside =
    let size : ℕ = madt_entries_size byte apic in
    madt_loop-Records byte size (size + 1) (apic + apic_size) 0 0 r (omega arith)
      (omega (arith, Records-length r)) (omega arith) (omega arith)
    ∙ ap ok (omega arith)

-- A record of length 0 inside the table holds the loop: no number of rounds is enough to return.
pub madt_loop_stuck :
    (byte : ℕ → ℕ) (left offset pos size count : ℕ)
    → byte (offset + 1) ≡ 0
    → pos < size
    → offset < 2 ^ 64
    → size < 2 ^ 64
    → madt_loop byte left offset pos size count ≡ fault
unfolding madt_loop
madt_loop_stuck byte zero offset pos size count z h o s = refl
madt_loop_stuck byte (suc left) offset pos size count z h o s =
    let e : ltb pos size ≡ true = ground arith in
    let next : u64 (offset + byte (offset + 1)) ≡ offset = omega (arith, z) in
    let further : u64 (pos + byte (offset + 1)) ≡ pos = omega (arith, z) in
    rw (e, next, further) (madt_loop_stuck byte left offset pos size _ z h o s)
