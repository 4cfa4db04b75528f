-- ===== src/Kernel/Tables.antt =====
-- kernel/gdt.c and kernel/idt.c: the entries of the descriptor tables, and writes into a table.
-- Loading and storing the table registers (`lgdt`, `sgdt`, `lidt`, `sidt`) is assembly.
pub mod Laws
use ech_os.Base.{
  ℕ, zero, suc, ◌+◌, ◌-◌, ◌*◌, ◌/◌, ◌%◌, ◌^◌, ◌==◌, ltb, if◌then◌else◌, bit_and, bit_or,
}
use ech_os.Base.{
  u8, u16, u32, u64, List, [], ◌∷◌, Run, ok, fault, ◌>>=◌, Option, none, some, get_elem?, set,
  replicate,
}

-- `gdt_entry_create`: `base` and `limit` of 32 bits, `access` and `flags` of 8.
unfoldable pub gdt_entry_create : (base limit access flags : ℕ) → ℕ
gdt_entry_create base limit access flags =
    let base1 = base / 2 ^ 24 in
    let base2 = bit_and (base / 2 ^ 16) 0xff in
    let base3 = bit_and base 0xffff in
    let limit1 = bit_and (limit / 2 ^ 16) 0xf in
    let limit2 = bit_and limit 0xffff in
    let entry = u64 (base1 * 2 ^ 56) in
    let entry = bit_or entry (u64 (bit_and flags 0xf * 2 ^ 52)) in
    let entry = bit_or entry (u64 (limit1 * 2 ^ 48)) in
    let entry = bit_or entry (u64 (access * 2 ^ 40)) in
    let entry = bit_or entry (u64 (base2 * 2 ^ 32)) in
    let entry = bit_or entry (u64 (base3 * 2 ^ 16)) in bit_or entry limit2

-- A table that `desc->base` points at, as the list of its entries.
pub record GdtDesc : Type 0 where
  pub limit : ℕ
  pub entries : List ℕ

-- `ptr[index] = entry`; a fault outside the table.
unfoldable pub gdt_entry_add : GdtDesc → (index entry : ℕ) → Run GdtDesc
gdt_entry_add desc index entry = elim (get_elem? desc.entries index) [
  | none ↦ fault
  | some _ ↦ ok (record desc { entries = set desc.entries index entry })
]

pub record IdtEntry : Type 0 where
  pub isr1 : ℕ
  pub segment : ℕ
  pub ist : ℕ
  pub flags : ℕ
  pub isr2 : ℕ
  pub isr3 : ℕ
  pub unused : ℕ

-- `garbage` is what the field `reserved`, which `idt_entry_create` leaves unset, holds.
unfoldable pub idt_entry_create : (garbage isr segment ist flags : ℕ) → IdtEntry
idt_entry_create garbage isr segment ist flags = record {
  isr1 = u16 (bit_and isr 0xffff);
  segment = segment;
  ist = ist;
  flags = flags;
  isr2 = u16 (bit_and (isr / 2 ^ 16) 0xffff);
  isr3 = u32 (isr / 2 ^ 32);
  unused = garbage;
}

pub record IdtDesc : Type 0 where
  pub limit : ℕ
  pub entries : List IdtEntry

abbrev pub zero_entry : IdtEntry
zero_entry = record { isr1 = 0; segment = 0; ist = 0; flags = 0; isr2 = 0; isr3 = 0; unused = 0 }

-- `idt_init`, where its allocator succeeds: 256 zeroed entries of 16 bytes.
unfoldable pub idt_init : IdtDesc
idt_init =
    let length = 16 * 256 in record { limit = u16 (length - 1); entries = replicate 256 zero_entry }

unfoldable pub idt_entry_add : IdtDesc → (index : ℕ) → IdtEntry → Run IdtDesc
idt_entry_add desc index entry = elim (get_elem? desc.entries index) [
  | none ↦ fault
  | some _ ↦ ok (record desc { entries = set desc.entries index entry })
]

-- The variable `isr` of `dump_idt_entry`. `isr2 << 16` is an `int`: where its bit 31 is set
-- the conversion to `uint64_t` fills the upper half with ones.
abbrev pub sign_extend : ℕ → ℕ
sign_extend x = if ltb x (2 ^ 31) then x else x + 0xffff_ffff_0000_0000

unfoldable pub idt_isr : IdtEntry → ℕ
idt_isr entry =
    let isr = u64 (entry.isr3 * 2 ^ 32) in
    let isr = bit_or isr (sign_extend (entry.isr2 * 2 ^ 16)) in bit_or isr entry.isr1

-- The numbers that `dump_idt_entry` prints, each with "%x", which takes 32 bits of its argument.
unfoldable pub dump_idt_entry : IdtEntry → List ℕ
unfolding idt_isr
dump_idt_entry entry = u32 (idt_isr entry) ∷ entry.segment ∷ entry.ist ∷ entry.flags ∷ []

-- The number of entries that `dump_idt` prints.
unfoldable pub dump_idt_count : IdtDesc → ℕ
dump_idt_count idt = (idt.limit + 1) / 16

-- The loop of `dump_idt`, from entry `counter` on: the numbers that it prints of each. A read past the
-- table is a fault.
unfoldable pub dump_entries : (left counter : ℕ) → List IdtEntry → Run (List (List ℕ))
unfolding dump_idt_entry
dump_entries zero counter entries = ok []
dump_entries (suc left) counter entries = elim (get_elem? entries counter) [
  | none ↦ fault
  | some entry ↦ do rest ← dump_entries left (counter + 1) entries; ok (dump_idt_entry entry ∷ rest)
]

unfoldable pub dump_idt : IdtDesc → Run (List (List ℕ))
unfolding dump_entries dump_idt_count
dump_idt idt = dump_entries (dump_idt_count idt) 0 idt.entries
