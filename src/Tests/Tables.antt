-- ===== src/Tests/Tables.antt =====
-- Runs of the descriptor tables on concrete entries, and the theorems there.
use ech_os.Base.{[], ◌∷◌, ◌+◌, ◌*◌, ◌/◌, ◌%◌, ◌^◌, ◌<◌}
use ech_os.Base.{◌≡◌, refl, arith}
use ech_os.Kernel.Tables.{gdt_entry_create, idt_entry_create}
use ech_os.Kernel.Tables.{idt_isr, dump_idt_entry, idt_init, dump_idt_count}
use ech_os.Kernel.Tables.Laws.{gdt_entry_create_fields, dump_idt_entry-idt_entry_create}

-- The code segment of the kernel.
code_segment : gdt_entry_create 0 0xfffff 0x9a 0xa ≡ 0x00af_9a00_0000_ffff
unfolding gdt_entry_create
code_segment = refl

entry_count : dump_idt_count idt_init ≡ 256
unfolding dump_idt_count idt_init
entry_count = refl

fields_example :
    let e = gdt_entry_create 0x1234_5678 0xfffff 0x9a 0xa in
    (e < 2 ^ 64)
    × (e / 2 ^ 48 % 2 ^ 4 * 2 ^ 16 + e % 2 ^ 16 ≡ 0xfffff % 2 ^ 20)
    × (e / 2 ^ 56 * 2 ^ 24 + e / 2 ^ 16 % 2 ^ 24 ≡ 0x1234_5678)
    × (e / 2 ^ 40 % 2 ^ 8 ≡ 0x9a)
    × (e / 2 ^ 52 % 2 ^ 4 ≡ 0xa % 2 ^ 4)
fields_example =
    gdt_entry_create_fields 0x1234_5678 0xfffff 0x9a 0xa (omega arith) (omega arith) (omega arith)

handler_example :
    dump_idt_entry (idt_entry_create 7 0xffff_8000_8010_2030 8 0 0x8e)
    ≡ 0x8010_2030 ∷ 8 ∷ 0 ∷ 0x8e ∷ []
handler_example = dump_idt_entry-idt_entry_create 7 0xffff_8000_8010_2030 8 0 0x8e (omega arith)

-- With bit 31 set the address that is put together has its upper half set.
sign_bit : idt_isr (idt_entry_create 0 0x8000_0000 8 0 0x8e) ≡ 0xffff_ffff_8000_0000
unfolding idt_isr idt_entry_create
sign_bit = refl
