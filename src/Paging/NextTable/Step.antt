-- ===== src/Paging/NextTable/Step.antt =====
-- `next_table`, on the way to an address.
use ech_os.Base.{ℕ, zero, suc, ◌+◌, ◌*◌, some, true, false}
use ech_os.Base.{◌≡◌, ◌≢◌, refl, sym, ap, ◌∙◌, arith, Bool-cases, inl, inr, ok, bit_and, bit_or}
use ech_os.Pmm.Layout.{PmmIsValid, layout}
use ech_os.Paging.{Machine, has_bit, get_table, present_bit, page_size_bit, put_entry, entry_of}
use ech_os.Paging.{next_table, user_supervisor_bit}
use ech_os.Paging.Kept.{Kept-refl}
use ech_os.Paging.Entries.{shared-present, shared-page_size, get_table-shared}
use ech_os.Paging.Translate.{stretch, slot}
use ech_os.Paging.Tree.{Places, Tree, Reaches, down, Reaches-place, shared}
use ech_os.Paging.Frames.{AllFrames}
use ech_os.Paging.Grow.{written, Grown, Grown-Alike, Tree-put_entry, Alike-put_entry}
use ech_os.Paging.NextTable.{NextTable}
use ech_os.Paging.NextTable.Attached.{NextTable-new_table}

module _ (m : Machine) (pml4 : ℕ) (place : Places) (v l t flags : ℕ) (tree : Tree m pml4 place)
    (valid : PmmIsValid m.physical_memory) (way : Reaches m.words pml4 v (suc l) t) where
  at : place t ≡ some (suc l, stretch (suc (suc l)) v)
  at = Reaches-place tree v (suc l) t way

  -- The entry is there, and gets the bit of the flags.
  NextTable-shared :
      has_bit (entry_of m t (slot (suc l) v)) present_bit ≡ true
      → has_bit (entry_of m t (slot (suc l) v)) page_size_bit ≡ false
      → let e' = bit_or (entry_of m t (slot (suc l) v)) (bit_and flags user_supervisor_bit) in
        NextTable m pml4 place v l (ok (get_table e', put_entry m t (slot (suc l) v) e'))
  NextTable-shared p n = record {
    next = get_table e';
    after = put_entry m t (slot (suc l) v) e';
    returns = refl;
    places = place;
    grown = grown;
    reached = λ ne.
        down l t (get_table e') (grown.reaches v (suc l) t way) (rw new p') (rw new n')
          (rw new refl);
    why_null = λ z. absurd (not_zero z);
  }
    where
      e : ℕ
      e = entry_of m t (slot (suc l) v)

      e' : ℕ
      e' = bit_or e (bit_and flags user_supervisor_bit)

      p' : has_bit e' present_bit ≡ true
      p' = shared-present e flags ∙ p

      n' : has_bit e' page_size_bit ≡ false
      n' = shared-page_size e flags ∙ n

      new : (put_entry m t (slot (suc l) v) e').words (t + slot (suc l) v * 8) ≡ e'
      new = written m t (slot (suc l) v) e' (t + slot (suc l) v * 8) refl

      not_zero : get_table e' ≢ 0
      not_zero z = tree.not_null l (stretch (suc (suc l)) v * 512 + slot (suc l) v) (
          ap place (sym z ∙ get_table-shared e flags)
          ∙ tree.child t l (stretch (suc (suc l)) v) (slot (suc l) v) at (omega arith) p n)

      good :
          (k : ℕ)
          → suc l ≡ suc k
          → has_bit e' present_bit ≡ true
          → has_bit e' page_size_bit ≡ false
          → place (get_table e') ≡ some (k, stretch (suc (suc l)) v * 512 + slot (suc l) v)
      good k h a b =
          ap place (get_table-shared e flags)
          ∙ tree.child t l (stretch (suc (suc l)) v) (slot (suc l) v) at (omega arith) p n
          ∙ ap (λ j. some (j, stretch (suc (suc l)) v * 512 + slot (suc l) v)) (omega (arith, h))

      grown : Grown m (put_entry m t (slot (suc l) v) e') pml4 place place
      grown =
          Grown-Alike tree
            (Tree-put_entry tree t (suc l) (stretch (suc (suc l)) v) (slot (suc l) v) e' at
              (omega arith) good (λ k h. n'))
            (λ s j r h. h) (unfold put_entry in Kept-refl m.physical_memory valid)
            (λ w.
              Alike-put_entry tree t (suc l) (stretch (suc (suc l)) v) (slot (suc l) v) e' at
                (omega arith) w (λ a b. shared l refl p p' n n' (get_table-shared e flags)))

  not_large :
      (l ≡ 0
        → has_bit (entry_of m t (slot (suc l) v)) present_bit ≡ true
        → has_bit (entry_of m t (slot (suc l) v)) page_size_bit ≡ false)
      → has_bit (entry_of m t (slot (suc l) v)) present_bit ≡ true
      → has_bit (entry_of m t (slot (suc l) v)) page_size_bit ≡ false
  not_large small p = above l refl
    where
      above : (k : ℕ) → l ≡ k → has_bit (entry_of m t (slot (suc l) v)) page_size_bit ≡ false
      above zero e = small e p
      above (suc k) e =
          tree.no_large t k (stretch (suc (suc l)) v) (slot (suc l) v)
            (at ∙ ap (λ j. some (suc j, stretch (suc (suc l)) v)) e) (omega arith)

  pub next_table-NextTable :
      AllFrames (layout m.physical_memory)
      → (l ≡ 0
          → has_bit (entry_of m t (slot (suc l) v)) present_bit ≡ true
          → has_bit (entry_of m t (slot (suc l) v)) page_size_bit ≡ false)
      → NextTable m pml4 place v l (next_table m t (slot (suc l) v) flags)
  unfolding next_table
  next_table-NextTable frames small =
      elim (Bool-cases (has_bit (entry_of m t (slot (suc l) v)) present_bit)) [
        | inr absent ↦
            rw absent (NextTable-new_table m pml4 place v l t flags tree valid way frames absent)
        | inl p ↦ elim (Bool-cases (has_bit (entry_of m t (slot (suc l) v)) page_size_bit)) [
          | inl large ↦ absurd (let no_ = not_large small p in cc)
          | inr n ↦ rw (p, n) (NextTable-shared p n)
        ]
      ]
