-- ===== src/Pmm/FrameAllocate.antt =====
-- `frame_allocate` on the whole PMM.
use ech_os.Base.{ℕ, ◌+◌, ◌*◌, ◌^◌, ◌<◌, ◌==◌, true, false, not}
use ech_os.Base.{if◌then◌else◌, Bool-cases, inl, inr, [], ◌∷◌}
use ech_os.Base.{Run, ok, ◌>>=◌, ◌≡◌, ◌≢◌, refl, ap, ◌∙◌, arith, none, some}
use ech_os.Pmm.{Pmm, frame_allocate, keep}
use ech_os.Pmm.Block.{PmBlock, Bitmap, frame_size, no_frame}
use ech_os.Pmm.Valid.{is_managed, start_of, IsValid, region, block_used, Marked}
use ech_os.Pmm.Allocate.{BlockAllocation, exhausted, taken, frame_allocate_from_block_lem}
use ech_os.Pmm.Layout.{
  frame_base, Apart, PmmIsValid, PmmIsValid-cons, PmmIsValid-tail, layout, inside, frame_of,
  in_frame,
}
use ech_os.Pmm.Layout.{is_free, is_free-Apart, free_frames, is_free-mark, in_frame-inside}

-- The frame at `address`, of a block with a bitmap, was free and is taken, and nothing else changes.
pub record Taken (p : Pmm) (address : ℕ) (p' : Pmm) : Type 0 where
  pub was_free : (x : ℕ) → in_frame address x ≡ true → is_free p x ≡ true
  pub base : (x : ℕ) → in_frame address x ≡ true → frame_base (layout p) x ≡ some address
  pub below : address + frame_size < 2 ^ 64
  pub now : (x : ℕ) → is_free p' x ≡ (if in_frame address x then false else is_free p x)
  pub same_layout : layout p' ≡ layout p
  pub valid : PmmIsValid p'
  pub one_less : free_frames p' + 1 ≡ free_frames p

pub data Allocation (p : Pmm) (r : Run (ℕ × Pmm)) : Type 0 where
  none_free : free_frames p ≡ 0 → r ≡ ok (no_frame, p) → Allocation p r
  frame : (address : ℕ) (p' : Pmm) → Taken p address p' → r ≡ ok (address, p') → Allocation p r

module _ (b : PmBlock) (bs : Pmm) (apart : Apart (region b) (layout bs)) where
  -- The block has a free frame, which is taken.
  Taken-head :
      (n : ℕ) (b' : PmBlock)
      → IsValid b
      → PmmIsValid bs
      → (m : Bitmap) × (b.bitmap ≡ some m)
      → n < b.frames_total
      → block_used b n ≡ false
      → Marked b n true b'
      → b'.frames_free + 1 ≡ b.frames_free
      → Taken (b ∷ bs) (b.address + n * frame_size) (b' ∷ bs)
  unfolding is_free free_frames frame_base
  Taken-head n b' v vs managed h free marked less = record {
    was_free = λ x e. let at = in_frame-inside (region b) n x h e in rw (at.0, at.1, free) refl;
    base = λ x e.
        let at = in_frame-inside (region b) n x h e in
        rw at.0 (
          ap
            (λ t. elim (start_of t) [
              | none ↦ none
              | some _ ↦ some (b.address + frame_of (region b) x * frame_size)
            ])
            managed.1
          ∙ ap (λ t. some (b.address + t * frame_size)) at.1);
    below = omega (arith, v.fits);
    now = λ x.
        ap (λ t. if inside t x then not (block_used b' (frame_of t x)) else is_free bs x)
          marked.same_region
        ∙ ap (λ t. if inside (region b) x then not t else is_free bs x)
            (marked.usage (frame_of (region b) x))
        ∙ is_free-mark (region b) (block_used b) n true (is_free bs x) x h;
    same_layout = ap (λ t. t ∷ layout bs) marked.same_region;
    valid = PmmIsValid-cons b b' bs bs apart marked.valid vs marked.same_region refl;
    one_less = omega (arith, less);
  }

  -- A later block has the frame.
  Taken-tail :
      (address : ℕ) (bs' : Pmm)
      → IsValid b
      → Taken bs address bs'
      → Taken (b ∷ bs) address (b ∷ bs')
  unfolding is_free free_frames frame_base
  Taken-tail address bs' v t = record {
    was_free = λ x e. ground (arith, t.was_free x e, is_free-Apart (region b) bs x apart);
    base = λ x e. ground (arith, t.base x e, t.was_free x e, is_free-Apart (region b) bs x apart);
    below = t.below;
    now = λ x. ground (arith, t.now x, t.was_free x, is_free-Apart (region b) bs x apart);
    same_layout = ap (λ l. region b ∷ l) t.same_layout;
    valid = PmmIsValid-cons b b bs bs' apart v t.valid refl t.same_layout;
    one_less = omega (arith, t.one_less);
  }

keep-eq :
    (b : PmBlock) {r : Run (ℕ × Pmm)} (a : ℕ) (bs : Pmm)
    → r ≡ ok (a, bs)
    → keep b r ≡ ok (a, b ∷ bs)
keep-eq b a bs e = rw e

Allocation-keep :
    (b : PmBlock) (bs : Pmm) {r : Run (ℕ × Pmm)}
    → Apart (region b) (layout bs)
    → IsValid b
    → b.frames_free ≡ 0
    → Allocation bs r
    → Allocation (b ∷ bs) (keep b r)
Allocation-keep b bs apart v e (none_free z h) =
    none_free (unfold free_frames in omega arith) (keep-eq b no_frame bs h)
Allocation-keep b bs apart v e (frame a bs' t h) =
    frame a (b ∷ bs') (Taken-tail b bs apart a bs' v t) (keep-eq b a bs' h)

-- What the body of the loop makes of a block with a free frame.
Allocation-block :
    (b : PmBlock) (bs : Pmm) (go_on : Run (ℕ × Pmm)) {r : Run (ℕ × PmBlock)}
    → Apart (region b) (layout bs)
    → IsValid b
    → PmmIsValid bs
    → (m : Bitmap) × (b.bitmap ≡ some m)
    → b.frames_free ≢ 0
    → BlockAllocation b r
    → Allocation
        (b ∷ bs)
        (do (address, b') ← r; if address == no_frame then keep b' go_on else ok (address, b' ∷ bs))
Allocation-block b bs go_on apart v vs managed some_free (exhausted z h) = absurd (some_free z)
Allocation-block b bs go_on apart v vs managed some_free
      (taken n b' low free before marked less h) =
    let real : (b.address + n * frame_size == no_frame) ≡ false = ground (arith, v.fits) in
    rw (h, real)
      (frame (b.address + n * frame_size) (b' ∷ bs)
        (Taken-head b bs apart n b' v vs managed low free marked less) refl)

-- On a valid PMM `frame_allocate` does not fault. It returns `no_frame` and the PMM as it was only
-- if no block has a free frame; else it returns the address of a frame that was free, takes that
-- frame and no other, keeps every block's region, and leaves one free frame less and a valid PMM.
pub frame_allocate_lem : (p : Pmm) → PmmIsValid p → Allocation p (frame_allocate p)
unfolding frame_allocate
frame_allocate_lem [] v = none_free (unfold free_frames in refl) refl
frame_allocate_lem (b ∷ bs) v =
    let rest = frame_allocate_lem bs (PmmIsValid-tail b bs v) in
    elim (Bool-cases (b.frames_free == 0)) [
      | inl none_here ↦
          rw none_here (Allocation-keep b bs v.disjoint.0 v.blocks_valid.0 (ground arith) rest)
      | inr some_here ↦
          let some_free : b.frames_free ≢ 0 = ground arith in
          let (m, managed) = is_managed b v.blocks_valid.0 some_free in
          rw some_here (
            Allocation-block b bs (frame_allocate bs) v.disjoint.0 v.blocks_valid.0
              (PmmIsValid-tail b bs v) (m, managed) some_free
              (frame_allocate_from_block_lem b m v.blocks_valid.0 managed))
    ]
