-- ===== src/Tests/Acpi.antt =====
-- The theorems on the ACPI tables at concrete tables.
use ech_os.Base.{List, ◌+◌, ℕ, ◌==◌, if◌then◌else◌, ok, fault, [], ◌∷◌, ◌≡◌, refl, arith}
use ech_os.Acpi.Xsdt.{FirstTable, xsdt_get_table_lem}
use ech_os.Acpi.{
  read_u32, read_u64, xsdt_get_table, madt_loop, madt_entries_size,
  madt_get_processor_local_apic_count,
}
use ech_os.Acpi.Madt.{Records, ended, record_at, processors, madt_loop_stuck}
use ech_os.Acpi.Madt.{madt_get_processor_local_apic_count_lem}

-- A table of 54 bytes at address 0: a processor of 8 bytes and a record of 2 bytes of type 1.
abbrev byte : ℕ → ℕ
byte a =
    if a == 4
    then 54
    else (if a == 45 then 8 else (if a == 52 then 1 else (if a == 53 then 2 else 0)))

entries-Records : Records byte (madt_entries_size byte 0) 44 0 (0 ∷ 1 ∷ [])
unfolding madt_entries_size
entries-Records =
    record_at 44 0 (1 ∷ []) (omega arith) (omega arith)
      (record_at 52 8 [] (omega arith) (omega arith) (ended 54))

processors_example : madt_get_processor_local_apic_count byte 0 ≡ ok (processors (0 ∷ 1 ∷ []))
processors_example =
    madt_get_processor_local_apic_count_lem byte 0 (0 ∷ 1 ∷ []) entries-Records
      (unfold madt_entries_size in omega arith)

stuck_example : madt_loop (λ _. 0) 1000 44 0 10 0 ≡ fault
stuck_example =
    madt_loop_stuck (λ _. 0) 1000 44 0 10 0 refl (omega arith) (omega arith) (omega arith)

-- RSDP at 0, XSDT at 64 with one pointer, to a table at 200 with the signature "APIC".
abbrev memory : ℕ → ℕ
memory a =
    if a == 24
    then 64
    else (if a == 68
        then 44
        else (if a == 100
            then 200
            else (if a == 200
                then b'A'
                else (if a == 201
                    then b'P'
                    else (if a == 202 then b'I' else (if a == 203 then b'C' else 0))))))

abbrev apic : List ℕ
apic = b'A' ∷ b'P' ∷ b'I' ∷ b'C' ∷ []

found_table : xsdt_get_table memory 0 apic ≡ ok 200
unfolding xsdt_get_table
found_table = refl

table_found_example :
    FirstTable memory (read_u64 memory (0 + 24)) 0 1 apic (xsdt_get_table memory 0 apic)
table_found_example =
    xsdt_get_table_lem memory 0 1 apic (omega arith) (unfold read_u32 read_u64 in refl)
      (omega arith)
