-- ===== src/Paging/MapPage/Small.antt =====
-- `map_page`, against the walk of the processor.
use ech_os.Bits.{bit_and-mask}
use ech_os.Bits.Logic.{bit_and-times}
use ech_os.Base.{
  ◌>>=◌, ℕ, ◌+◌, ◌-◌, ◌*◌, ◌/◌, ◌%◌, ◌^◌, ◌==◌, ◌&&◌, if◌then◌else◌, some, true, false,
}
use ech_os.Base.{
  ◌≡◌, refl, sym, ap, ◌∙◌, arith, Bool-cases, inl, inr, ◌≢◌, eq-or-ne, ok, bit_and, bit_or, u64,
  not64,
}
use ech_os.Pmm.Layout.{PmmIsValid, layout}
use ech_os.Paging.{
  Machine, done, failed, has_bit, get_table, present_bit, page_size_bit, put_entry, entry_of,
}
use ech_os.Paging.{next_table, map_in_directory, map_page}
use ech_os.Paging.{init_pt_entry, phys_addr_mask, large_page_size}
use ech_os.Paging.Kept.{Starved-Kept}
use ech_os.Paging.Entries.{leaf-present, get_table-leaf, get_table-eq}
use ech_os.Paging.Translate.{walk, translate, physical, stretch, slot, index_of-slot}
use ech_os.Paging.Tree.{Places, Tree, Reaches, Reaches-walk}
use ech_os.Paging.Frames.{AllFrames}
use ech_os.Paging.Grow.{Grown, Grown-trans}
use ech_os.Paging.NextTable.Step.{next_table-NextTable}
use ech_os.Paging.Directory.{directory_of-NextTable, AllFrames-Kept}
use ech_os.Paging.Leaf.{Reaches-stretch, walk-IsLeaf}
use ech_os.Paging.MapPage.{
  Maps, Elsewhere, translate-walk, translate-leaf, and_left, and_right, not_both, Maps-failed,
  Maps-put_entry,
}

-- The address that a large page gives to `v`, as the code computes it.
abbrev mapped_at : (e v : ℕ) → ℕ
mapped_at e v = u64 (
    bit_and (bit_and e phys_addr_mask) (not64 (large_page_size - 1))
    + bit_and v (large_page_size - 1))

mapped_at-eq : (e v : ℕ) → mapped_at e v ≡ get_table e / 0x200000 * 0x200000 + v % 0x200000
mapped_at-eq e v =
    let high : bit_and (get_table e) (2 ^ 21 * (2 ^ 43 - 1))
        ≡ 2 ^ 21 * (get_table e / 2 ^ 21 % 2 ^ 43) =
      bit_and-times 21 (get_table e) (2 ^ 43 - 1)
      ∙ ap (λ t. 2 ^ 21 * t) (bit_and-mask 43 (get_table e / 2 ^ 21)) in
    omega (arith, high, bit_and-mask 21 v, get_table-eq e)

-- Where the test of `map_page` holds, the large page maps the whole page of `v` as asked for.
physical_large :
    (e v w paddr : ℕ)
    → mapped_at e v ≡ get_table paddr
    → stretch 0 w ≡ stretch 0 v
    → physical 1 e w ≡ get_table paddr + w % 4096
physical_large e v w paddr h s = omega (arith, h, s, mapped_at-eq e v, get_table-eq paddr)

module _ {m n : Machine} {pml4 : ℕ} {place places : Places} (g : Grown m n pml4 place places)
    (v pd paddr flags : ℕ) (way : Reaches n.words pml4 v 1 pd)
    (frames : AllFrames (layout n.physical_memory)) (plain : bit_and flags phys_addr_mask ≡ 0) where
  here_walk :
      has_bit (entry_of n pd (slot 1 v)) present_bit ≡ true
      → has_bit (entry_of n pd (slot 1 v)) page_size_bit ≡ true
      → (w : ℕ) → stretch 1 w ≡ stretch 1 v
      → walk 3 n.words pml4 w ≡ some (1, entry_of n pd (slot 1 v))
  here_walk p large w s =
      let one : n.words (pd + slot 1 w * 8) ≡ entry_of n pd (slot 1 v) =
        ap (λ x. n.words (pd + x % 512 * 8)) s in
      Reaches-walk n.words pml4 w 1 pd (Reaches-stretch n.words pml4 v w 1 pd (sym s) way)
      ∙ walk-IsLeaf n.words 1 pd w (rw one (p, large))
      ∙ ap (λ x. some (1, x)) one

  -- A large page is there, and maps `v` elsewhere.
  other_large :
      has_bit (entry_of n pd (slot 1 v)) present_bit ≡ true
      → has_bit (entry_of n pd (slot 1 v)) page_size_bit ≡ true
      → mapped_at (entry_of n pd (slot 1 v)) v ≢ get_table paddr
      → Elsewhere m.words pml4 v (get_table paddr)
  other_large p large other = (
    mapped_at (entry_of n pd (slot 1 v)) v,
    sym (translate-walk m.words n.words pml4 v (g.same_walk v))
        ∙ translate-leaf n.words pml4 v 1 (entry_of n pd (slot 1 v))
            (mapped_at (entry_of n pd (slot 1 v)) v) (here_walk p large v refl)
            (sym (mapped_at-eq (entry_of n pd (slot 1 v)) v)),
    other,
  )

  -- A large page is there, and maps the page of `v` as asked for.
  Maps-large_there :
      has_bit (entry_of n pd (slot 1 v)) present_bit ≡ true
      → has_bit (entry_of n pd (slot 1 v)) page_size_bit ≡ true
      → mapped_at (entry_of n pd (slot 1 v)) v ≡ get_table paddr
      → Maps m pml4 place 0 v (get_table paddr) (ok (done, n))
  Maps-large_there p large right = record {
    outcome = done;
    after = n;
    returns = refl;
    places = places;
    kept = g.kept;
    tree = g.tree;
    on_failure = λ e. absurd (cc);
    on_success = λ e w. mapped w;
    why_failed = λ e. absurd (cc);
  }
    where
      e : ℕ
      e = entry_of n pd (slot 1 v)

      mapped :
          (w : ℕ)
          → translate n.words pml4 w ≡ (
              if stretch 0 w == stretch 0 v
              then some (get_table paddr + w % 4096)
              else translate m.words pml4 w)
      mapped w = elim (eq-or-ne (stretch 0 w) (stretch 0 v)) [
        | inl here ↦
            let yes_ : (stretch 0 w == stretch 0 v) ≡ true = ground arith in
            rw yes_ (
              translate-leaf n.words pml4 w 1 e (get_table paddr + w % 4096)
                (here_walk p large w (omega (arith, here))) (physical_large e v w paddr right here))
        | inr other ↦
            let no_ : (stretch 0 w == stretch 0 v) ≡ false = ground arith in
            rw no_ (translate-walk m.words n.words pml4 w (g.same_walk w))
      ]

  Maps-small :
      (has_bit (entry_of n pd (slot 1 v)) present_bit ≡ true
        → has_bit (entry_of n pd (slot 1 v)) page_size_bit ≡ false)
      → Maps m pml4 place 0 v (get_table paddr) (do
        (pt, n') ← next_table n pd (slot 1 v) flags
        if pt == 0
            then ok (failed, n')
            else ok
                (done, put_entry n' pt (slot 0 v) (init_pt_entry paddr (bit_or flags present_bit))))
  Maps-small small =
      let t =
        next_table-NextTable n pml4 places v 0 pd flags g.tree g.kept.valid way frames
          (λ z. small) in
      let g' = Grown-trans g t.grown in
      rw t.returns (elim (Bool-cases (t.next == 0)) [
        | inl none_ ↦ rw none_ (
            Maps-failed 0 v (get_table paddr) g' (λ z a. inl (
              Starved-Kept m.physical_memory n.physical_memory t.after.physical_memory g.kept
                (t.why_null (ground arith)))))
        | inr some_ ↦ rw some_ (
            Maps-put_entry g' 0 v t.next (init_pt_entry paddr (bit_or flags present_bit))
              (get_table paddr) (t.reached (ground arith)) (leaf-present paddr flags) (omega arith)
              (λ w. right w))
      ])
    where
      right :
          (w : ℕ)
          → physical 0 (init_pt_entry paddr (bit_or flags present_bit)) w
            ≡ get_table paddr + w % 4096
      right w = omega (arith, get_table-leaf paddr flags plain, get_table-eq paddr)

  Maps-map_in_directory :
      Maps m pml4 place 0 v (get_table paddr) (map_in_directory n pd v paddr flags)
  unfolding map_in_directory
  Maps-map_in_directory =
      rw ((index_of-slot v).2, (index_of-slot v).3)
        (elim (Bool-cases (
          has_bit (entry_of n pd (slot 1 v)) present_bit
          && has_bit (entry_of n pd (slot 1 v)) page_size_bit)) [
            | inr other ↦ rw other (Maps-small (λ p. not_both _ _ other p))
            | inl both ↦
                elim (Bool-cases (mapped_at (entry_of n pd (slot 1 v)) v == get_table paddr)) [
                  | inl same ↦
                      rw (both, same)
                        (Maps-large_there (and_left _ _ both) (and_right _ _ both) (ground arith))
                  | inr other ↦
                      rw (both, other)
                        (Maps-failed 0 v (get_table paddr) g (λ z a.
                          inr
                            (other_large (and_left _ _ both) (and_right _ _ both) (ground arith))))
                ]
          ])

-- `map_page` on page tables that are a tree, in a valid PMM of whole frames below 2^52 and with flags
-- that leave the address of an entry alone, returns and leaves such page tables and such a PMM. Where
-- it succeeds, the page of `vaddr` is mapped to the page of `paddr`, and every other address as
-- before; where it fails, every address is mapped as before. For an aligned `vaddr` it fails only
-- where no frame is left for a table, the frame at address 0 is free, or `vaddr` is mapped elsewhere.
pub map_page_lem :
    (m : Machine) (pml4 : ℕ) (place : Places) (vaddr paddr flags : ℕ)
    → Tree m pml4 place
    → PmmIsValid m.physical_memory
    → AllFrames (layout m.physical_memory)
    → bit_and flags phys_addr_mask ≡ 0
    → Maps m pml4 place 0 vaddr (get_table paddr) (map_page m pml4 vaddr paddr flags)
unfolding map_page
map_page_lem m pml4 place vaddr paddr flags tree valid frames plain =
    let d = directory_of-NextTable m pml4 place vaddr flags tree valid frames in
    rw d.returns (elim (Bool-cases (d.next == 0)) [
      | inl none_ ↦
          rw none_
            (Maps-failed 0 vaddr (get_table paddr) d.grown (λ z a. inl (d.why_null (ground arith))))
      | inr some_ ↦ rw some_ (
          Maps-map_in_directory d.grown vaddr d.next paddr flags (d.reached (ground arith))
            (AllFrames-Kept d.grown.kept frames) plain)
    ])
