-- ===== src/Paging/NextTable/Attached.antt =====
-- A fresh table on the way to an address.
use ech_os.Base.{ℕ, suc, ◌+◌, ◌*◌, ◌%◌, ◌^◌, ◌<◌, ◌==◌, none, some, true, false}
use ech_os.Base.{◌≡◌, ◌≢◌, refl, sym, ap, ◌∙◌, arith, Bool-cases, inl, inr, ok, bit_and, bit_or}
use ech_os.Pmm.{Pmm}
use ech_os.Pmm.Block.{no_frame}
use ech_os.Pmm.Layout.{PmmIsValid, layout}
use ech_os.Pmm.FrameAllocate.{Taken, none_free, frame, frame_allocate_lem}
use ech_os.Paging.{Machine, has_bit, get_table, present_bit, page_size_bit, put_entry, entry_of}
use ech_os.Paging.{alloc_table, new_table, user_supervisor_bit, read_write_bit}
use ech_os.Paging.Kept.{Kept-refl}
use ech_os.Paging.Entries.{attached-present, attached-page_size, get_table-attached}
use ech_os.Paging.Translate.{walk, stretch, slot, stretch-slot}
use ech_os.Paging.Tree.{Places, Tree, Reaches, down, Reaches-place, attached}
use ech_os.Paging.Frames.{AllFrames, Taken-IsFrame}
use ech_os.Paging.Grow.{
  written, unwritten, Grown, Grown-trans, Grown-Alike, Tree-put_entry, Alike-put_entry,
}
use ech_os.Paging.Fresh.{
  apart, cleared, cleared-words, with_place, empty_table, Grown-cleared, Grown-added, here_place,
}
use ech_os.Paging.NextTable.{NextTable, NextTable-null, walk_empty}

module _ (m : Machine) (pml4 : ℕ) (place : Places) (v l t flags : ℕ) (tree : Tree m pml4 place)
    (valid : PmmIsValid m.physical_memory) (way : Reaches m.words pml4 v (suc l) t) where
  at : place t ≡ some (suc l, stretch (suc (suc l)) v)
  at = Reaches-place tree v (suc l) t way

  -- The entry gets the cleared frame `f`.
  module _ (f : ℕ) (pmm : Pmm) (taken : Taken m.physical_memory f pmm) (aligned : f % 4096 ≡ 0)
      (low : f < 2 ^ 52) (nonzero : f ≢ 0)
      (absent : has_bit (entry_of m t (slot (suc l) v)) present_bit ≡ false) where
    NextTable-attached :
        let e' =
          bit_or
            (bit_or (bit_or f present_bit) read_write_bit)
            (bit_and flags user_supervisor_bit) in
        NextTable m pml4 place v l (ok (f, put_entry (cleared m f pmm) t (slot (suc l) v) e'))
    NextTable-attached = record {
      next = f;
      after = n;
      returns = refl;
      places = with_place place f l (stretch (suc l) v);
      grown = Grown-trans added grown;
      reached = λ ne.
          down l t f (grown.reaches v (suc l) t (added.reaches v (suc l) t way)) (rw new p')
            (rw new n') (rw new (get_table-attached f flags aligned low));
      why_null = λ z. absurd (nonzero z);
    }
      where
        e' : ℕ
        e' =
            bit_or (bit_or (bit_or f present_bit) read_write_bit)
              (bit_and flags user_supervisor_bit)

        n : Machine
        n = put_entry (cleared m f pmm) t (slot (suc l) v) e'

        p' : has_bit e' present_bit ≡ true
        p' = attached-present f flags aligned low

        n' : has_bit e' page_size_bit ≡ false
        n' = attached-page_size f flags aligned low

        new : n.words (t + slot (suc l) v * 8) ≡ e'
        new = written (cleared m f pmm) t (slot (suc l) v) e' (t + slot (suc l) v * 8) refl

        added : Grown m (cleared m f pmm) pml4 place (with_place place f l (stretch (suc l) v))
        added = Grown-added tree taken aligned l (stretch (suc l) v) nonzero

        still : with_place place f l (stretch (suc l) v) t ≡ some (suc l, stretch (suc (suc l)) v)
        still = added.extends t (suc l) (stretch (suc (suc l)) v) at

        gone : has_bit ((cleared m f pmm).words (t + slot (suc l) v * 8)) present_bit ≡ false
        gone =
            ap (λ x. has_bit x present_bit)
              (cleared-words tree taken aligned t (suc l) (stretch (suc (suc l)) v) (slot (suc l) v)
                at (omega arith))
            ∙ absent

        good :
            (k : ℕ)
            → suc l ≡ suc k
            → has_bit e' present_bit ≡ true
            → has_bit e' page_size_bit ≡ false
            → with_place place f l (stretch (suc l) v) (get_table e')
              ≡ some (k, stretch (suc (suc l)) v * 512 + slot (suc l) v)
        good k h a b =
            ap (with_place place f l (stretch (suc l) v)) (get_table-attached f flags aligned low)
            ∙ here_place tree taken aligned l (stretch (suc l) v) nonzero
            ∙ ap (λ x. some (l, x)) (sym (stretch-slot (suc l) v))
            ∙ ap (λ j. some (j, stretch (suc (suc l)) v * 512 + slot (suc l) v)) (omega (arith, h))

        other : (j : ℕ) → j < 512 → f + j * 8 ≢ t + slot (suc l) v * 8
        other j h x =
            apart tree taken aligned t (suc l) (stretch (suc (suc l)) v) at
              (omega (arith, x, aligned, tree.aligned t (suc l) (stretch (suc (suc l)) v) at))

        empty : (j : ℕ) → j < 512 → n.words (f + j * 8) ≡ 0
        empty j h =
            unwritten (cleared m f pmm) t (slot (suc l) v) e' (f + j * 8) (other j h)
            ∙ empty_table m f pmm j h

        vacant : (w : ℕ) → walk l n.words (get_table e') w ≡ none
        vacant w = rw (get_table-attached f flags aligned low) (walk_empty l w f n.words empty)

        grown :
            Grown
              (cleared m f pmm)
              n
              pml4
              (with_place place f l (stretch (suc l) v))
              (with_place place f l (stretch (suc l) v))
        grown =
            Grown-Alike added.tree
              (Tree-put_entry added.tree t (suc l) (stretch (suc (suc l)) v) (slot (suc l) v) e'
                still (omega arith) good (λ k h. n'))
              (λ s j r h. h) (unfold put_entry in Kept-refl pmm taken.valid)
              (λ w.
                Alike-put_entry added.tree t (suc l) (stretch (suc (suc l)) v) (slot (suc l) v) e'
                  still (omega arith) w (λ a b. attached l refl gone p' n' (vacant w)))

  pub NextTable-new_table :
      AllFrames (layout m.physical_memory)
      → has_bit (entry_of m t (slot (suc l) v)) present_bit ≡ false
      → NextTable m pml4 place v l (new_table m t (slot (suc l) v) flags)
  unfolding new_table alloc_table
  NextTable-new_table frames absent = elim (frame_allocate_lem m.physical_memory valid) [
    | none_free z e ↦ rw e (NextTable-null m pml4 place v l tree valid (inl z))
    | frame f pmm taken e ↦
        let real : (f == no_frame) ≡ false = ground (arith, taken.below) in
        let is_frame = Taken-IsFrame frames taken in
        rw (e, real)
          (elim (Bool-cases (f == 0)) [
            | inl zero_ ↦ rw zero_ (record {
              next = 0;
              after = cleared m f pmm;
              returns = refl;
              places = place;
              grown = Grown-cleared tree taken is_frame.0;
              reached = λ ne. absurd (ne refl);
              why_null =
                  λ z. inr (taken.was_free 0 (let zero_at : f ≡ 0 = ground arith in ground arith));
            })
            | inr some_ ↦
                rw some_
                  (NextTable-attached f pmm taken is_frame.0 is_frame.1 (ground arith) absent)
          ])
  ]
