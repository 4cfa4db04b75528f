-- ===== src/Pmm/FrameFree.antt =====
-- `frame_free` on the whole PMM.
use ech_os.Base.{ℕ, ◌+◌, ◌-◌, ◌*◌, ◌%◌, true, false, not}
use ech_os.Base.{if◌then◌else◌, Bool-cases, Option-cases, inl, inr, List, [], ◌∷◌}
use ech_os.Base.{Run, ok, ◌>>=◌, ◌≡◌, refl, ap, ◌∙◌, arith, subst, none, some}
use ech_os.Pmm.{Pmm, frame_free}
use ech_os.Pmm.Block.{PmBlock, Bitmap, frame_size, frame_free_from_block}
use ech_os.Pmm.Valid.{IsValid, Region, region, block_used, Marked}
use ech_os.Pmm.Free.{BlockFreed, one_if, frame_free_from_block_lem, frame_free_from_block-unmanaged}
use ech_os.Pmm.Layout.{
  Apart, PmmIsValid, PmmIsValid-cons, PmmIsValid-tail, layout, inside, frame_of,
}
use ech_os.Pmm.Layout.{in_frame, is_free, free_frames, is_free-mark, contains-inside}
use ech_os.Pmm.Layout.{in_frame-inside, base_in, frame_base}

base_in-inside :
    (s : Region) (x base y : ℕ)
    → inside s x ≡ true
    → base_in s x ≡ some base
    → in_frame base y ≡ true
    → inside s y ≡ true
base_in-inside s x base y h e f = elim (Option-cases s.start) [
  | inl none_ ↦ ground arith
  | inr found ↦
      let at : base ≡ s.address + frame_of s x * frame_size = ground (arith, found.1) in
      (in_frame-inside s (frame_of s x) y (ground arith) (rw at at f)).0
]

frame_base-Apart :
    (r : Region) (rs : List Region) (x base y : ℕ)
    → Apart r rs
    → frame_base rs x ≡ some base
    → in_frame base y ≡ true
    → inside r y ≡ false
unfolding frame_base
frame_base-Apart r [] x base y a e f = cc
frame_base-Apart r (s ∷ rs) x base y a e f = elim (Bool-cases (inside s x)) [
  | inl here ↦ let in_s = base_in-inside s x base y here (rw here at e) f in ground arith
  | inr there ↦ frame_base-Apart r rs x base y a.1 (rw there at e) f
]

-- The frame at `base`, which holds `x`, is free, and nothing else changes.
pub record Freed (p : Pmm) (x base : ℕ) (p' : Pmm) : Type 0 where
  pub now : (y : ℕ) → is_free p' y ≡ (if in_frame base y then true else is_free p y)
  pub same_layout : layout p' ≡ layout p
  pub valid : PmmIsValid p'
  pub free_count : free_frames p' ≡ free_frames p + one_if (not (is_free p x))

pub data Release (p : Pmm) (x : ℕ) (r : Run Pmm) : Type 0 where
  foreign : frame_base (layout p) x ≡ none → r ≡ ok p → Release p x r
  frame :
      (base : ℕ) (p' : Pmm)
      → frame_base (layout p) x ≡ some base
      → Freed p x base p'
      → r ≡ ok p'
      → Release p x r

module _ (b : PmBlock) (bs : Pmm) (apart : Apart (region b) (layout bs)) (x : ℕ) where
  Freed-head :
      (b' : PmBlock)
      → IsValid b
      → PmmIsValid bs
      → inside (region b) x ≡ true
      → Marked b (frame_of (region b) x) false b'
      → b'.frames_free ≡ b.frames_free + one_if (block_used b (frame_of (region b) x))
      → Freed (b ∷ bs) x (b.address + frame_of (region b) x * frame_size) (b' ∷ bs)
  unfolding is_free free_frames
  Freed-head b' v vs here marked count = record {
    now = λ y.
        ap (λ t. if inside t y then not (block_used b' (frame_of t y)) else is_free bs y)
          marked.same_region
        ∙ ap (λ t. if inside (region b) y then not t else is_free bs y)
            (marked.usage (frame_of (region b) y))
        ∙ is_free-mark (region b) (block_used b) (frame_of (region b) x) false (is_free bs y) y
            (ground arith);
    same_layout = ap (λ t. t ∷ layout bs) marked.same_region;
    valid = PmmIsValid-cons b b' bs bs apart marked.valid vs marked.same_region refl;
    free_count = rw here (ground arith);
  }

  -- The frame lies in a later block, so no address of it lies in this one.
  Freed-tail :
      (base : ℕ) (bs' : Pmm)
      → IsValid b
      → inside (region b) x ≡ false
      → frame_base (layout bs) x ≡ some base
      → Freed bs x base bs'
      → Freed (b ∷ bs) x base (b ∷ bs')
  unfolding is_free free_frames
  Freed-tail base bs' v there e f = record {
    now = λ y. ground (arith, f.now y, frame_base-Apart (region b) (layout bs) x base y apart e);
    same_layout = ap (λ l. region b ∷ l) f.same_layout;
    valid = PmmIsValid-cons b b bs bs' apart v f.valid refl f.same_layout;
    free_count = rw there (omega (arith, f.free_count));
  }

Release-keep :
    (b : PmBlock) (bs : Pmm) (x : ℕ) {r : Run Pmm}
    → Apart (region b) (layout bs)
    → IsValid b
    → inside (region b) x ≡ false
    → Release bs x r
    → Release (b ∷ bs) x (do blocks' ← r; ok (b ∷ blocks'))
unfolding frame_base
Release-keep b bs x apart v there (foreign e h) = foreign (rw there e) (rw h)
Release-keep b bs x apart v there (frame base bs' e f h) =
    frame base (b ∷ bs') (rw there e) (Freed-tail b bs apart x base bs' v there e f) (rw h)

Release-block :
    (b : PmBlock) (bs : Pmm) (x : ℕ)
    → Apart (region b) (layout bs)
    → IsValid b
    → PmmIsValid bs
    → inside (region b) x ≡ true
    → Release (b ∷ bs) x (do block' ← frame_free_from_block b x; ok (block' ∷ bs))
unfolding frame_base
Release-block b bs x apart v vs here = elim (Option-cases b.bitmap) [
  | inl none_ ↦ foreign (rw here (rw none_)) (rw (frame_free_from_block-unmanaged b x none_) refl)
  | inr found ↦
      let freed = freed_here found.0 found.1 in
      frame (b.address + frame_of (region b) x * frame_size) (freed.after ∷ bs)
        (rw here (rw found.1))
        (Freed-head b bs apart x freed.after v vs here freed.marked freed.free_count)
        (rw freed.returns)
]
  where
    whole : b.address + frame_of (region b) x * frame_size + (x - b.address) % frame_size ≡ x
    whole = ground arith

    freed_here :
        (m : Bitmap)
        → b.bitmap ≡ some m
        → BlockFreed b (frame_of (region b) x) (frame_free_from_block b x)
    freed_here m managed =
        subst (λ t. BlockFreed b (frame_of (region b) x) (frame_free_from_block b t)) whole
          (frame_free_from_block_lem b m v managed (frame_of (region b) x)
            ((x - b.address) % frame_size) (ground arith) (omega arith))

-- On a valid PMM `frame_free` does not fault. An address in no block that has a bitmap leaves the
-- PMM as it was; else the frame that holds the address becomes free and no other changes, every
-- block keeps its region, there is one free frame more unless the frame was free before, and the
-- PMM stays valid.
pub frame_free_lem : (p : Pmm) (x : ℕ) → PmmIsValid p → Release p x (frame_free p x)
unfolding frame_free
frame_free_lem [] x v = foreign (unfold frame_base in refl) refl
frame_free_lem (b ∷ bs) x v =
    let rest = frame_free_lem bs x (PmmIsValid-tail b bs v) in
    elim (Bool-cases (inside (region b) x)) [
      | inl here ↦
          rw (contains-inside b x v.blocks_valid.0 ∙ here)
            (Release-block b bs x v.disjoint.0 v.blocks_valid.0 (PmmIsValid-tail b bs v) here)
      | inr there ↦
          rw (contains-inside b x v.blocks_valid.0 ∙ there)
            (Release-keep b bs x v.disjoint.0 v.blocks_valid.0 there rest)
    ]
