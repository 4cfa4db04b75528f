-- ===== src/Kernel/Start/Root.antt =====
-- The fresh PML4: it maps nothing.
use ech_os.Base.{ℕ, suc, ◌+◌, ◌*◌, ◌%◌, ◌<◌, ◌==◌, if◌then◌else◌, none, some, true, false}
use ech_os.Base.{◌≡◌, ◌≢◌, refl, sym, ◌∙◌, arith, Bool-cases, inl, inr, ◌⊎◌, Run, ok}
use ech_os.Pmm.{Pmm}
use ech_os.Pmm.Block.{no_frame}
use ech_os.Pmm.Layout.{PmmIsValid, layout}
use ech_os.Pmm.FrameAllocate.{Taken, none_free, frame, frame_allocate_lem}
use ech_os.Paging.{Machine, alloc_table, init_pml4, has_bit, present_bit}
use ech_os.Paging.Kept.{Kept, Kept-refl, Starved, Taken-Kept}
use ech_os.Paging.Translate.{translate}
use ech_os.Paging.Tree.{Places, Tree}
use ech_os.Paging.Frames.{AllFrames, Taken-IsFrame}
use ech_os.Paging.Fresh.{cleared, empty_table}
use ech_os.Paging.NextTable.{walk_empty}

abbrev pub only : (f : ℕ) → Places
only f x = if x == f then some (3, 0) else none

-- What `init_pml4` returns: NULL, or an empty table.
pub data Root (m : Machine) : Run (ℕ × Machine) → Type 0 where
  null :
      (n : Machine)
      → Kept m.physical_memory n.physical_memory
      → Starved m.physical_memory n.physical_memory
      → Root m (ok (0, n))
  root :
      (f : ℕ) (p : Pmm)
      → Taken m.physical_memory f p
      → f ≢ 0
      → f % 4096 ≡ 0
      → Root m (ok (f, cleared m f p))

pub init_pml4-Root :
    (m : Machine)
    → PmmIsValid m.physical_memory
    → AllFrames (layout m.physical_memory)
    → Root m (init_pml4 m)
unfolding init_pml4 alloc_table
init_pml4-Root m valid frames = elim (frame_allocate_lem m.physical_memory valid) [
  | none_free z e ↦ rw e (null m (Kept-refl m.physical_memory valid) (inl z))
  | frame f pmm taken e ↦
      let real : (f == no_frame) ≡ false = ground (arith, taken.below) in
      rw (e, real) (by_frame f pmm taken (Bool-cases (f == 0)))
]
  where
    by_frame :
        (f : ℕ) (p : Pmm)
        → Taken m.physical_memory f p
        → ((f == 0) ≡ true) ⊎ ((f == 0) ≡ false)
        → Root m (ok (f, cleared m f p))
    by_frame f p taken (inl e) =
        let zero_ : f ≡ 0 = ground arith in
        rw zero_ (null (cleared m 0 p) (Taken-Kept taken) (inr (taken.was_free 0 (ground arith))))
    by_frame f p taken (inr e) = root f p taken (ground arith) (Taken-IsFrame frames taken).0

module _ (m : Machine) (f : ℕ) (p : Pmm) (taken : Taken m.physical_memory f p)
    (aligned : f % 4096 ≡ 0) (nonzero : f ≢ 0) where
  at_root : (t l q : ℕ) → only f t ≡ some (l, q) → t ≡ f
  at_root t l q e = ground (arith, e)

  pub Tree-root : Tree (cleared m f p) f (only f)
  Tree-root = record {
    root = ground arith;
    not_null = λ l q e. nonzero (sym (at_root 0 l q e));
    aligned = λ t l q e. rw (at_root t l q e) aligned;
    in_use = λ t l q x e h. taken.now x ∙ rw (rw (at_root t l q e) at h) refl;
    child = λ t l q i e h a b. absurd (no_entry i h (rw (at_root t (suc l) q e) at a));
    no_large = λ t l q i e h. rw (at_root t (suc (suc l)) q e) (rw (empty_table m f p i h) refl);
  }
    where
      no_entry :
          (i : ℕ) → i < 512 → has_bit ((cleared m f p).words (f + i * 8)) present_bit ≡ true → ⊥
      no_entry i h a =
          let none_ : has_bit 0 present_bit ≡ true = rw (empty_table m f p i h) at a in cc

  pub translate-root : (w : ℕ) → translate (cleared m f p).words f w ≡ none
  unfolding translate
  translate-root w = rw (walk_empty 3 w f (cleared m f p).words (empty_table m f p)) refl
