-- ===== src/Kernel/Tables/Laws.antt =====
-- The entries hold the fields that they were made of, where the processor looks for them.
use ech_os.Bits.{bit_and-mask}
use ech_os.Bits.Fields.{bit_or-sum}
use ech_os.Bits.Logic.{bit_and-bit_or}
use ech_os.Base.{ℕ, ◌+◌, ◌*◌, ◌/◌, ◌%◌, ◌^◌, ◌<◌, bit_and, bit_or, u64, length, get_or, set}
use ech_os.Base.{
  [], ◌∷◌, ap, ap₂, ◌-◌, ◌≡◌, ◌≢◌, refl, sym, ◌∙◌, arith, ok, get_elem?-get_or, get_or-set_self,
  get_or-set_ne,
}
use ech_os.Kernel.Tables.{gdt_entry_create, GdtDesc, gdt_entry_add, idt_entry_create}
use ech_os.Kernel.Tables.{sign_extend, dump_idt_entry}

-- `|` where the left side is a multiple of `2 ^ k`.
join : (k q high low : ℕ) → q * 2 ^ k ≡ high → low < 2 ^ k → bit_or high low ≡ high + low
join k q high low e p = rw (← e) (bit_or-sum k q low p)

module _ (base limit access flags : ℕ) (base_fits : base < 2 ^ 32) (limit_fits : limit < 2 ^ 32)
    (access_fits : access < 2 ^ 8) where
  abbrev sum : ℕ
  sum =
      base / 2 ^ 24 * 2 ^ 56
      + flags % 2 ^ 4 * 2 ^ 52
      + limit / 2 ^ 16 % 2 ^ 4 * 2 ^ 48
      + access * 2 ^ 40
      + base / 2 ^ 16 % 2 ^ 8 * 2 ^ 32
      + base % 2 ^ 16 * 2 ^ 16
      + limit % 2 ^ 16

  b1 : ℕ
  b1 = base / 2 ^ 24

  b2 : ℕ
  b2 = base / 2 ^ 16 % 2 ^ 8

  b3 : ℕ
  b3 = base % 2 ^ 16

  l1 : ℕ
  l1 = limit / 2 ^ 16 % 2 ^ 4

  l2 : ℕ
  l2 = limit % 2 ^ 16

  f : ℕ
  f = flags % 2 ^ 4

  -- The fields of 4 bits, by steps of 4 bits, from the top.
  joined :
      bit_or
        (bit_or
          (bit_or
            (bit_or (bit_or (bit_or (b1 * 2 ^ 56) (f * 2 ^ 52)) (l1 * 2 ^ 48)) (access * 2 ^ 40))
            (b2 * 2 ^ 32))
          (b3 * 2 ^ 16))
        l2
      ≡ sum
  unfolding b1 b2 b3 l1 l2 f
  joined =
      let h52 : ℕ = b1 * 2 ^ 4 + f in
      let h48 : ℕ = h52 * 2 ^ 4 + l1 in
      let h40 : ℕ = h48 * 2 ^ 8 + access in
      let h32 : ℕ = h40 * 2 ^ 8 + b2 in
      let h16 : ℕ = h32 * 2 ^ 16 + b3 in
      let j1 = join 56 b1 (b1 * 2 ^ 56) (f * 2 ^ 52) refl (omega arith) in
      let j2 = join 52 h52 (b1 * 2 ^ 56 + f * 2 ^ 52) (l1 * 2 ^ 48) (omega arith) (omega arith) in
      let j3 =
        join 48 h48 (b1 * 2 ^ 56 + f * 2 ^ 52 + l1 * 2 ^ 48) (access * 2 ^ 40) (omega arith)
          (omega arith) in
      let j4 =
        join 40 h40 (b1 * 2 ^ 56 + f * 2 ^ 52 + l1 * 2 ^ 48 + access * 2 ^ 40) (b2 * 2 ^ 32)
          (omega arith) (omega arith) in
      let j5 =
        join 32 h32 (b1 * 2 ^ 56 + f * 2 ^ 52 + l1 * 2 ^ 48 + access * 2 ^ 40 + b2 * 2 ^ 32)
          (b3 * 2 ^ 16) (omega arith) (omega arith) in
      let j6 =
        join 16 h16
          (b1 * 2 ^ 56 + f * 2 ^ 52 + l1 * 2 ^ 48 + access * 2 ^ 40 + b2 * 2 ^ 32 + b3 * 2 ^ 16) l2
          (omega arith) (omega arith) in
      rw (j1, j2, j3, j4, j5, j6)

  create-sum : gdt_entry_create base limit access flags ≡ sum
  unfolding gdt_entry_create b1 b2 b3 l1 l2 f
  create-sum =
      let t0 : u64 (b1 * 2 ^ 56) ≡ b1 * 2 ^ 56 = omega arith in
      let t1 : u64 (f * 2 ^ 52) ≡ f * 2 ^ 52 = omega arith in
      let t2 : u64 (l1 * 2 ^ 48) ≡ l1 * 2 ^ 48 = omega arith in
      let t3 : u64 (access * 2 ^ 40) ≡ access * 2 ^ 40 = omega arith in
      let t4 : u64 (b2 * 2 ^ 32) ≡ b2 * 2 ^ 32 = omega arith in
      let t5 : u64 (b3 * 2 ^ 16) ≡ b3 * 2 ^ 16 = omega arith in
      rw
        (
          bit_and-mask 8 (base / 2 ^ 16),
          bit_and-mask 16 base,
          bit_and-mask 4 (limit / 2 ^ 16),
          bit_and-mask 16 limit,
          bit_and-mask 4 flags,
          t0,
          t1,
          t2,
          t3,
          t4,
          t5,
        )
        joined

  -- For a base and a limit of 32 bits and an access byte, `gdt_entry_create` puts every field where
  -- the processor reads it: the limit in bits 0-15 and 48-51 (20 bits of it), the base in bits 16-39
  -- and 56-63, the access byte in bits 40-47, and the low 4 bits of the flags in bits 52-55.
  pub gdt_entry_create_fields :
      let e = gdt_entry_create base limit access flags in
      (e < 2 ^ 64)
      × (e / 2 ^ 48 % 2 ^ 4 * 2 ^ 16 + e % 2 ^ 16 ≡ limit % 2 ^ 20)
      × (e / 2 ^ 56 * 2 ^ 24 + e / 2 ^ 16 % 2 ^ 24 ≡ base)
      × (e / 2 ^ 40 % 2 ^ 8 ≡ access)
      × (e / 2 ^ 52 % 2 ^ 4 ≡ flags % 2 ^ 4)
  gdt_entry_create_fields = (
    omega (arith, create-sum),
    omega (arith, create-sum),
    omega (arith, create-sum),
    omega (arith, create-sum),
    omega (arith, create-sum),
  )

-- The low bits of `|`.
bit_or-mod : (k x y : ℕ) → bit_or x y % 2 ^ k ≡ bit_or (x % 2 ^ k) (y % 2 ^ k)
bit_or-mod k x y =
    sym (bit_and-mask k (bit_or x y))
    ∙ bit_and-bit_or x y (2 ^ k - 1)
    ∙ ap₂ bit_or (bit_and-mask k x) (bit_and-mask k y)

-- Of an entry that `idt_entry_create` made of a handler's 64-bit address and other fields,
-- `dump_idt_entry` prints the low 32 bits of the address, and those fields.
pub dump_idt_entry-idt_entry_create :
    (garbage isr segment ist flags : ℕ)
    → isr < 2 ^ 64
    → dump_idt_entry (idt_entry_create garbage isr segment ist flags)
      ≡ isr % 2 ^ 32 ∷ segment ∷ ist ∷ flags ∷ []
unfolding dump_idt_entry idt_entry_create
dump_idt_entry-idt_entry_create garbage isr segment ist flags h =
    ap (λ t. t ∷ segment ∷ ist ∷ flags ∷ [])
      (bit_or-mod 32 _ _
        ∙ ap₂ bit_or
            (bit_or-mod 32 _ _
              ∙ ap₂ bit_or hi mid
              ∙ join 32 0 0 _ refl (omega arith)
              ∙ zero_add (isr / 2 ^ 16 % 2 ^ 16 * 2 ^ 16))
            low
        ∙ join 16 (isr / 2 ^ 16 % 2 ^ 16) (isr / 2 ^ 16 % 2 ^ 16 * 2 ^ 16) (isr % 2 ^ 16) refl
            (omega arith)
        ∙ omega arith)
  where
    hi : u64 (isr / 2 ^ 32 % 2 ^ 32 * 2 ^ 32) % 2 ^ 32 ≡ 0
    hi = omega arith

    mid :
        sign_extend (bit_and (isr / 2 ^ 16) 0xffff % 2 ^ 16 * 2 ^ 16) % 2 ^ 32
        ≡ isr / 2 ^ 16 % 2 ^ 16 * 2 ^ 16
    mid = rw (bit_and-mask 16 (isr / 2 ^ 16)) (ground arith)

    zero_add : (x : ℕ) → 0 + x ≡ x
    zero_add x = omega arith

    low : bit_and isr 0xffff % 2 ^ 16 % 2 ^ 32 ≡ isr % 2 ^ 16
    low = rw (bit_and-mask 16 isr) (omega arith)

-- `gdt_entry_add` at an index in the table changes that entry, no other and not the limit.
pub gdt_entry_add_lem :
    (desc : GdtDesc) (index entry : ℕ)
    → index < length desc.entries
    → (after : GdtDesc) × (gdt_entry_add desc index entry ≡ ok after)
      × (get_or after.entries index 0 ≡ entry)
      × ((i : ℕ) → i ≢ index → get_or after.entries i 0 ≡ get_or desc.entries i 0)
      × (after.limit ≡ desc.limit)
unfolding gdt_entry_add
gdt_entry_add_lem desc index entry h = (
  record desc { entries = set desc.entries index entry },
  ground (arith, get_elem?-get_or desc.entries index 0 h),
  get_or-set_self desc.entries index entry 0 h,
  λ i ne. get_or-set_ne desc.entries index i entry 0 (λ e. ne (sym e)),
  refl,
)
