-- ===== src/Kernel/Boot/Laws.antt =====
-- `kernel_start` halts where its comments say, with a GDT of its own frames.
use ech_os.Base.{ℕ, suc, ◌+◌, ◌-◌, ◌/◌, ◌^◌, ◌≤◌, ◌==◌, List, [], ◌∷◌, Run, ok, ◌>>=◌, u64}
use ech_os.Base.{true, false, ◌≡◌, refl, arith, subst}
use ech_os.Pmm.{Pmm}
use ech_os.Pmm.Block.{no_frame, frame_size}
use ech_os.Pmm.Layout.{in_frame}
use ech_os.Pmm.Layout.{PmmIsValid, layout, is_free, free_frames}
use ech_os.Pmm.FrameAllocate.{Taken, none_free, frame, frame_allocate_lem}
use ech_os.Paging.{Machine, Outcome, done, failed, put_entry, page_size}
use ech_os.Paging.Kept.{Kept, Kept-refl, Kept-trans, Taken-Kept, Returns}
use ech_os.Kernel.Colonel.{Framebuffer}
use ech_os.Kernel.Tables.{GdtDesc, gdt_entry_create, gdt_entry_add}
use ech_os.Kernel.Start.{init_paging, fb_length}
use ech_os.Kernel.Start.Laws.{AllBelow, init_paging_lem}
use ech_os.Kernel.Boot.{
  Halt, no_gdt, no_gdt_base, no_page_tables, running, gdt_limit, words_at, write_words,
}
use ech_os.Kernel.Boot.{fill_gdt, after_paging, set_up_gdt, kernel_start}

-- The frame of `address` was free in `p`, and is not in `p'`.
record IsOwned (p p' : Pmm) (address : ℕ) : Type 0 where
  before : (x : ℕ) → in_frame address x ≡ true → is_free p x ≡ true
  after : (x : ℕ) → in_frame address x ≡ true → is_free p' x ≡ false

-- The descriptor and the table have frames of their own, and the table the null segment and flat
-- segments for 64-bit code and for data, of the kernel and of the user.
record GdtIsSet (p p' : Pmm) (gdt base : ℕ) (desc : GdtDesc) : Type 0 where
  gdt_owned : IsOwned p p' gdt
  base_owned : IsOwned p p' base
  apart : (x : ℕ) → in_frame base x ≡ true → in_frame gdt x ≡ false
  limit : desc.limit ≡ 39
  rest : List ℕ
  entries :
      desc.entries
      ≡ 0 ∷ 0x00af9a000000ffff ∷ 0x00cf92000000ffff ∷ 0x00affa000000ffff ∷ 0x00cff2000000ffff ∷ rest

-- What is true where `kernel_start` halts.
data HaltsWith (p p' : Pmm) : Halt → Type 0 where
  no_frame_left : free_frames p ≡ 0 → HaltsWith p p' no_gdt
  one_frame_left : (gdt : ℕ) → free_frames p ≡ 1 → HaltsWith p p' (no_gdt_base gdt)
  tables_failed :
      (gdt base : ℕ) (desc : GdtDesc)
      → GdtIsSet p p' gdt base desc
      → HaltsWith p p' (no_page_tables gdt base desc)
  started :
      (gdt base : ℕ) (desc : GdtDesc)
      → GdtIsSet p p' gdt base desc
      → HaltsWith p p' (running gdt base desc)

pub record Halted (p : Pmm) (r : Run (Halt × Machine)) : Type 0 where
  halt : Halt
  after : Machine
  returns : r ≡ ok (halt, after)
  kept : Kept p after.physical_memory
  is_right : HaltsWith p after.physical_memory halt

-- The descriptor of a table with the five segments in front of `rest`.
abbrev gdt_of : List ℕ → GdtDesc
gdt_of rest = record {
  limit = 39;
  entries =
      0 ∷ 0x00af9a000000ffff ∷ 0x00cf92000000ffff ∷ 0x00affa000000ffff ∷ 0x00cff2000000ffff ∷ rest;
}

fill_gdt-words_at :
    (left : ℕ) (words : ℕ → ℕ) (a : ℕ)
    → (rest : List ℕ) × (fill_gdt
          (record { limit = 39; entries = words_at (suc (suc (suc (suc (suc left))))) words a })
        ≡ ok (gdt_of rest))
unfolding fill_gdt words_at gdt_entry_add gdt_entry_create
fill_gdt-words_at left words a = (words_at left words (a + 8 + 8 + 8 + 8 + 8), refl)

write_words-memory :
    (m : Machine) (base index : ℕ) (entries : List ℕ)
    → (write_words m base index entries).physical_memory ≡ m.physical_memory
unfolding write_words put_entry
write_words-memory m base index [] = refl
write_words-memory m base index (entry ∷ entries) =
    write_words-memory (put_entry m base index entry) base (index + 1) entries

Taken-IsOwned :
    {p p1 p2 p' : Pmm} {address : ℕ}
    → Kept p p1
    → Taken p1 address p2
    → Kept p2 p'
    → IsOwned p p' address
Taken-IsOwned k t k' = record {
  before = λ x h. k.shrinks x (t.was_free x h);
  after = λ x h. ground (arith, t.now x, k'.shrinks x);
}

paging-Halted :
    (p p2 : Pmm) (gdt base : ℕ) (desc : GdtDesc) {r : Run (Outcome × Machine)}
    → Kept p p2
    → ((p' : Pmm) → Kept p2 p' → GdtIsSet p p' gdt base desc)
    → Returns p2 r
    → Halted p (r >>= after_paging gdt base desc)
paging-Halted p p2 gdt base desc k is_set s = by_outcome s.value s.after s.returns s.kept
  where
    by_outcome :
        (o : Outcome) (m : Machine) {r : Run (Outcome × Machine)}
        → r ≡ ok (o, m)
        → Kept p2 m.physical_memory
        → Halted p (r >>= after_paging gdt base desc)
    by_outcome done m e k' = rw e (record {
      halt = running gdt base desc;
      after = m;
      returns = refl;
      kept = Kept-trans k k';
      is_right = started gdt base desc (is_set m.physical_memory k');
    })
    by_outcome failed m e k' = rw e (record {
      halt = no_page_tables gdt base desc;
      after = m;
      returns = refl;
      kept = Kept-trans k k';
      is_right = tables_failed gdt base desc (is_set m.physical_memory k');
    })

-- The end of `set_up_gdt`, from its filled table.
table-Halted :
    (p : Pmm) (m : Machine) (p2 : Pmm) (fb : Framebuffer) (gdt base : ℕ) (desc : GdtDesc)
    {r : Run GdtDesc}
    → r ≡ ok desc
    → Halted p (
        init_paging (write_words (record m { physical_memory = p2 }) base 0 desc.entries) fb
        >>= after_paging gdt base desc)
    → Halted p (
        r >>= λ d.
        init_paging (write_words (record m { physical_memory = p2 }) base 0 d.entries) fb
        >>= after_paging gdt base d)
table-Halted p m p2 fb gdt base desc e h = rw e h

set_up_gdt-Halted :
    (m : Machine) (p : Pmm) (fb : Framebuffer) (gdt : ℕ)
    → Taken p gdt m.physical_memory
    → PmmIsValid p
    → AllBelow (layout p)
    → u64 (fb.buffer + fb_length fb) ≤ 2 ^ 64 - page_size
    → Halted p (set_up_gdt m fb gdt)
unfolding set_up_gdt
set_up_gdt-Halted m p fb gdt t v below fb_below =
    elim (frame_allocate_lem m.physical_memory t.valid) [
      | none_free e a ↦ rw a (record {
        halt = no_gdt_base gdt;
        after = m;
        returns = refl;
        kept = Taken-Kept t;
        is_right = one_frame_left gdt (omega (arith, t.one_less));
      })
      | frame base p2 u a ↦
          let real : (base == no_frame) ≡ false = ground (arith, u.below) in
          let filled = fill_gdt-words_at 507 m.words base in
          let desc = gdt_of filled.0 in
          let full : fill_gdt
                (record { limit = gdt_limit; entries = words_at (frame_size / 8) m.words base })
              ≡ ok desc =
            filled.1 in
          let k = Kept-trans (Taken-Kept t) (Taken-Kept u) in
          let m' = write_words (record m { physical_memory = p2 }) base 0 desc.entries in
          let same : m'.physical_memory ≡ p2 =
            write_words-memory (record m { physical_memory = p2 }) base 0 desc.entries in
          rw (a, real)
            (table-Halted p m p2 fb gdt base desc full (
              paging-Halted p p2 gdt base desc k
                (λ p' k'. record {
                  gdt_owned = Taken-IsOwned (Kept-refl p v) t (Kept-trans (Taken-Kept u) k');
                  base_owned = Taken-IsOwned (Taken-Kept t) u k';
                  apart = λ x h. ground (arith, u.was_free x h, t.now x);
                  limit = refl;
                  rest = filled.0;
                  entries = refl;
                })
                (subst (λ q. Returns q (init_paging m' fb)) same
                  (init_paging_lem m' fb (rw same k.valid) (rw same (rw k.same_layout below))
                    fb_below))))
    ]

-- `kernel_start` on a valid PMM whose blocks, like the framebuffer, end before the last page of the
-- address space: it comes to one of its halts, and leaves a valid PMM of the same blocks, in which
-- it freed nothing. Without memory for the GDT, the PMM had no frame or only one. Else the GDT's
-- descriptor and table have frames of their own that were free, the limit covers five entries, and
-- these are the null segment and flat code and data segments of the kernel and of the user.
pub kernel_start_lem :
    (m : Machine) (fb : Framebuffer)
    → PmmIsValid m.physical_memory
    → AllBelow (layout m.physical_memory)
    → u64 (fb.buffer + fb_length fb) ≤ 2 ^ 64 - page_size
    → Halted m.physical_memory (kernel_start m fb)
unfolding kernel_start set_up_gdt
kernel_start_lem m fb v below fb_below = elim (frame_allocate_lem m.physical_memory v) [
  | none_free e a ↦ rw a (record {
    halt = no_gdt;
    after = m;
    returns = refl;
    kept = Kept-refl m.physical_memory v;
    is_right = no_frame_left e;
  })
  | frame gdt p1 t a ↦
      let real : (gdt == no_frame) ≡ false = ground (arith, t.below) in
      rw (a, real)
        (set_up_gdt-Halted (record m { physical_memory = p1 }) m.physical_memory fb gdt t v below
          fb_below)
]
