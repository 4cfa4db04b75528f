-- ===== src/Heap/Frames.antt =====
-- The frames of a PMM whose regions are whole frames, for `get_heap`.
use ech_os.Base.{[], ℕ, ◌+◌, ◌*◌, ◌/◌, ◌%◌, ◌^◌, ◌≤◌, ◌<◌, ◌∷◌, some, true, false}
use ech_os.Base.{◌≡◌, refl, arith, Bool-cases, Option-cases, inl, inr, eq-or-ne}
use ech_os.Pmm.{Pmm}
use ech_os.Pmm.Block.{PmBlock, frame_size}
use ech_os.Pmm.Valid.{region}
use ech_os.Pmm.Layout.{layout, inside, frame_of, is_free, frame_base}
use ech_os.Pmm.FramesAllocate.{TakenRun, in_run}
use ech_os.Paging.Frames.{AllFrames}
use ech_os.Kernel.Start.Blocks.{AllLow}

-- The start of the frame that holds `x`.
abbrev pub page_at : ℕ → ℕ
page_at x = x / 4096 * 4096

-- A free address lies in a region.
pub free_below : (p : Pmm) (x : ℕ) → AllLow (layout p) → is_free p x ≡ true → x < 2 ^ 48
unfolding is_free
free_below [] x low e = absurd (cc)
free_below (b ∷ bs) x low e = elim (Bool-cases (inside (region b) x)) [
  | inl here ↦ let end = low.0 in ground (arith, end, here)
  | inr there ↦ free_below bs x low.1 (rw there at e)
]

module _ (b : PmBlock) (whole : b.address % frame_size ≡ 0) (x : ℕ) where
  inside-page_at : inside (region b) (page_at x) ≡ inside (region b) x
  inside-page_at = elim (Bool-cases (inside (region b) x)) [
    | inl here ↦ ground (arith, here, whole)
    | inr there ↦ ground (arith, there, whole)
  ]

  frame_of-page_at :
      inside (region b) x ≡ true → frame_of (region b) (page_at x) ≡ frame_of (region b) x
  frame_of-page_at h = let from : b.address ≤ x = ground arith in omega (arith, from, whole)

  start-frame_of :
      inside (region b) x ≡ true → b.address + frame_of (region b) x * frame_size ≡ page_at x
  start-frame_of h = let from : b.address ≤ x = ground arith in omega (arith, from, whole)

-- A frame is free as a whole.
pub is_free-page_at : (p : Pmm) (x : ℕ) → AllFrames (layout p) → is_free p (page_at x) ≡ is_free p x
unfolding is_free
is_free-page_at [] x all = refl
is_free-page_at (b ∷ bs) x all = elim (Bool-cases (inside (region b) x)) [
  | inl here ↦
      let same = inside-page_at b all.0 x in
      let frame = frame_of-page_at b all.0 x here in rw (same, here, frame) refl
  | inr there ↦ let same = inside-page_at b all.0 x in rw (same, there) (is_free-page_at bs x all.2)
]

-- `frame_free` finds the frame of a free address.
pub frame_base-free :
    (p : Pmm) (x : ℕ)
    → AllFrames (layout p)
    → is_free p x ≡ true
    → frame_base (layout p) x ≡ some (page_at x)
unfolding is_free frame_base
frame_base-free [] x all e = absurd (cc)
frame_base-free (b ∷ bs) x all e = elim (Bool-cases (inside (region b) x)) [
  | inl here ↦ elim (Option-cases b.bitmap) [
    | inl none_ ↦ absurd (ground arith)
    | inr found ↦ let at = start-frame_of b all.0 x here in rw (here, found.1, at) refl
  ]
  | inr there ↦ rw there (frame_base-free bs x all.2 (rw there at e))
]

-- A run begins where a frame does.
pub TakenRun-aligned :
    {p p' : Pmm} {count address : ℕ}
    → AllFrames (layout p)
    → TakenRun p count address p'
    → 0 < count
    → address % 4096 ≡ 0
TakenRun-aligned {p} {p'} {count} {address} all t some_ =
    elim (eq-or-ne (page_at address) address) [
      | inl e ↦ omega (arith, e)
      | inr ne ↦
          let all' : AllFrames (layout p') = rw t.same_layout all in
          let free = t.was_free address (ground arith) in
          let before = is_free-page_at p address all in
          let behind = is_free-page_at p' address all' in
          let left = t.now (page_at address) in
          let first = t.now address in
          let out : in_run address count (page_at address) ≡ false = ground arith in
          let in_ : in_run address count address ≡ true = ground arith in absurd (cc)
    ]
