-- ===== src/Acpi.antt =====
-- kernel/acpi/: walks over the firmware's tables. `byte` is the byte at each physical address.
pub mod Madt
pub mod Xsdt
use ech_os.Base.{◌/◌, ◌>>=◌, List, [], ◌∷◌}
use ech_os.Strings.{memcmp, Compared, less, same, greater}
use ech_os.Base.{ℕ, zero, suc, ◌+◌, ◌*◌, ◌^◌, ◌==◌, ltb, if◌then◌else◌, u64, sub64, Run, ok, fault}

-- A `uint32_t` at an address, low byte first.
unfoldable pub read_u32 : (byte : ℕ → ℕ) → ℕ → ℕ
read_u32 byte a = byte a + byte (a + 1) * 2 ^ 8 + byte (a + 2) * 2 ^ 16 + byte (a + 3) * 2 ^ 24

-- `sizeof(sdt_header)` and `sizeof(APIC)`.
abbrev pub sdt_header_size : ℕ
sdt_header_size = 36

abbrev pub apic_size : ℕ
apic_size = sdt_header_size + 8

-- The loop over the records; `left` bounds the rounds, and a run that has none left is a fault.
unfoldable pub madt_loop : (byte : ℕ → ℕ) (left offset pos entries_size count : ℕ) → Run ℕ
madt_loop byte zero offset pos entries_size count = fault
madt_loop byte (suc left) offset pos entries_size count =
    let record_length = byte (offset + 1) in
    let rest =
      madt_loop byte left (u64 (offset + record_length)) (u64 (pos + record_length)) entries_size
        (if byte offset == 0 then u64 (count + 1) else count) in
    if ltb pos entries_size then rest else ok count

-- The header's `Length` is at offset 4.
unfoldable pub madt_entries_size : (byte : ℕ → ℕ) (apic : ℕ) → ℕ
unfolding read_u32
madt_entries_size byte apic = sub64 (read_u32 byte (apic + 4)) apic_size

-- A record with a length takes a round and a byte at least.
unfoldable pub madt_get_processor_local_apic_count : (byte : ℕ → ℕ) (apic : ℕ) → Run ℕ
unfolding madt_loop madt_entries_size
madt_get_processor_local_apic_count byte apic =
    let entries_size = madt_entries_size byte apic in
    madt_loop byte (entries_size + 1) (apic + apic_size) 0 entries_size 0

-- A `uint64_t` at an address.
unfoldable pub read_u64 : (byte : ℕ → ℕ) → ℕ → ℕ
unfolding read_u32
read_u64 byte a = read_u32 byte a + read_u32 byte (a + 4) * 2 ^ 32

-- `xsdt->ptr[i]`.
unfoldable pub table_at : (byte : ℕ → ℕ) → (xsdt i : ℕ) → ℕ
unfolding read_u64
table_at byte xsdt i = read_u64 byte (u64 (xsdt + sdt_header_size + 8 * i))

-- `header->Signature`.
abbrev pub signature_at : (byte : ℕ → ℕ) → (header : ℕ) → List ℕ
signature_at byte header =
    byte header ∷ byte (header + 1) ∷ byte (header + 2) ∷ byte (header + 3) ∷ []

-- What a round does with the answer of `memcmp`; `go_on` is the rest of the loop.
abbrev pub after_memcmp : Compared → (header : ℕ) → (go_on : Run ℕ) → Run ℕ
after_memcmp same header go_on = ok header
after_memcmp _ header go_on = go_on

-- The loop from table `i` on, with `left` tables to go.
unfoldable pub xsdt_loop : (byte : ℕ → ℕ) → (left i xsdt : ℕ) → (signature : List ℕ) → Run ℕ
unfolding table_at memcmp
xsdt_loop byte zero i xsdt signature = ok 0
xsdt_loop byte (suc left) i xsdt signature =
    let header = table_at byte xsdt i in
    let rest = xsdt_loop byte left (i + 1) xsdt signature in
    memcmp (signature_at byte header) signature 4 >>= λ compared. after_memcmp compared header rest

-- `XsdtAddress` is at offset 24 of `rsdp2_desc`.
unfoldable pub xsdt_get_table : (byte : ℕ → ℕ) → (rsdp : ℕ) → (signature : List ℕ) → Run ℕ
unfolding read_u32 read_u64 xsdt_loop
xsdt_get_table byte rsdp signature =
    let xsdt = read_u64 byte (rsdp + 24) in
    let table_count = sub64 (read_u32 byte (xsdt + 4)) sdt_header_size / 8 in
    xsdt_loop byte table_count 0 xsdt signature
