-- ===== src/Paging/Fresh.antt =====
-- A frame that becomes a table: it is cleared, and no table stands there yet.
use ech_os.Base.{ℕ, suc, ◌+◌, ◌*◌, ◌%◌, ◌<◌, ◌==◌, ◌&&◌, leb, ltb, if◌then◌else◌, some, true, false}
use ech_os.Base.{◌≡◌, ◌≢◌, refl, sym, ◌∙◌, arith, inl, inr, eq-or-ne}
use ech_os.Pmm.{Pmm}
use ech_os.Pmm.Block.{frame_size}
use ech_os.Pmm.Layout.{is_free, in_frame}
use ech_os.Pmm.FrameAllocate.{Taken}
use ech_os.Paging.{Machine, has_bit, get_table, present_bit}
use ech_os.Paging.Kept.{Taken-Kept}
use ech_os.Paging.Translate.{stretch, slot}
use ech_os.Paging.Tree.{Places, Tree, same, Alike}
use ech_os.Paging.Grow.{Grown, Grown-Alike}

-- What `alloc_table` leaves.
abbrev pub cleared : Machine → (f : ℕ) → Pmm → Machine
cleared m f p = record {
  physical_memory = p;
  words = λ x. if leb f x && ltb x (f + frame_size) then 0 else m.words x;
}

abbrev pub with_place : Places → (f l q : ℕ) → Places
with_place place f l q = λ x. if x == f then some (l, q) else place x

pub empty_table :
    (m : Machine) (f : ℕ) (p : Pmm) (i : ℕ) → i < 512 → (cleared m f p).words (f + i * 8) ≡ 0
empty_table m f p i h = ground arith

module _ {m : Machine} {pml4 : ℕ} {place : Places} (tree : Tree m pml4 place) {f : ℕ} {p : Pmm}
    (taken : Taken m.physical_memory f p) (aligned : f % 4096 ≡ 0) where
  pub fresh : (l q : ℕ) → place f ≡ some (l, q) → ⊥
  fresh l q e =
      let used = tree.in_use f l q f e (ground arith) in
      let free = taken.was_free f (ground arith) in absurd (cc)

  pub apart : (t l q : ℕ) → place t ≡ some (l, q) → t ≢ f
  apart t l q e here = fresh l q (rw (← here) e)

  pub cleared-words :
      (t l q i : ℕ)
      → place t ≡ some (l, q)
      → i < 512
      → (cleared m f p).words (t + i * 8) ≡ m.words (t + i * 8)
  cleared-words t l q i e h = ground (arith, apart t l q e, tree.aligned t l q e)

  still_used : (t l q x : ℕ) → place t ≡ some (l, q) → in_frame t x ≡ true → is_free p x ≡ false
  still_used t l q x e h = ground (arith, taken.now x, tree.in_use t l q x e h)

  now_used : (x : ℕ) → in_frame f x ≡ true → is_free p x ≡ false
  now_used x h = taken.now x ∙ rw h refl

  pub Tree-cleared : Tree (cleared m f p) pml4 place
  Tree-cleared = record {
    root = tree.root;
    not_null = tree.not_null;
    aligned = tree.aligned;
    in_use = still_used;
    child = λ t l q i e h a b.
        let old = cleared-words t (suc l) q i e h in
        rw old (tree.child t l q i e h (rw old at a) (rw old at b));
    no_large =
        λ t l q i e h. rw (cleared-words t (suc (suc l)) q i e h) (tree.no_large t l q i e h);
  }

  Alike-cleared : (w : ℕ) → Alike m.words (cleared m f p).words place w
  Alike-cleared w t l e = same (cleared-words t l (stretch (suc l) w) (slot l w) e (omega arith))

  pub Grown-cleared : Grown m (cleared m f p) pml4 place place
  Grown-cleared = Grown-Alike tree Tree-cleared (λ t l q e. e) (Taken-Kept taken) Alike-cleared

  module _ (l0 q0 : ℕ) (nonzero : f ≢ 0) where
    pub here_place : with_place place f l0 q0 f ≡ some (l0, q0)
    here_place = ground arith

    pub old_place : (t l q : ℕ) → place t ≡ some (l, q) → with_place place f l0 q0 t ≡ some (l, q)
    old_place t l q e = ground (arith, e, apart t l q e)

    -- A place is the new one or an old one.
    not_here :
        (t l q : ℕ) → t ≢ f → with_place place f l0 q0 t ≡ some (l, q) → place t ≡ some (l, q)
    not_here t l q ne e = ground (arith, e, ne)

    Tree-added : Tree (cleared m f p) pml4 (with_place place f l0 q0)
    Tree-added = record {
      root = old_place pml4 3 0 tree.root;
      not_null = λ l q e. tree.not_null l q (not_here 0 l q (λ z. nonzero (sym z)) e);
      aligned = λ t l q e. elim (eq-or-ne t f) [
        | inl here ↦ rw here aligned
        | inr other ↦ tree.aligned t l q (not_here t l q other e)
      ];
      in_use = λ t l q x e h. elim (eq-or-ne t f) [
        | inl here ↦ now_used x (rw here at h)
        | inr other ↦ still_used t l q x (not_here t l q other e) h
      ];
      child = λ t l q i e h a b. elim (eq-or-ne t f) [
        | inl here ↦ absurd (empty_absurd i h (rw here at a))
        | inr other ↦
            let k = Tree-cleared.child t l q i (not_here t (suc l) q other e) h a b in
            old_place (get_table ((cleared m f p).words (t + i * 8))) l (q * 512 + i) k
      ];
      no_large = λ t l q i e h. elim (eq-or-ne t f) [
        | inl here ↦ rw here (rw (empty_table m f p i h) refl)
        | inr other ↦ Tree-cleared.no_large t l q i (not_here t (suc (suc l)) q other e) h
      ];
    }
      where
        empty_absurd :
            (i : ℕ) → i < 512 → has_bit ((cleared m f p).words (f + i * 8)) present_bit ≡ true → ⊥
        empty_absurd i h a =
            let none_ : has_bit 0 present_bit ≡ true = rw (empty_table m f p i h) at a in cc

    pub Grown-added : Grown m (cleared m f p) pml4 place (with_place place f l0 q0)
    Grown-added = Grown-Alike tree Tree-added old_place (Taken-Kept taken) Alike-cleared
