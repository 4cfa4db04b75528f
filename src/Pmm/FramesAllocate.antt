-- ===== src/Pmm/FramesAllocate.antt =====
-- `frames_allocate` on the whole PMM.
use ech_os.Base.{ℕ, zero, suc, ◌+◌, ◌*◌, ◌^◌, ◌≤◌, ◌<◌, ◌==◌, Bool, true, false, not}
use ech_os.Base.{ltb, leb, ◌&&◌, if◌then◌else◌, Bool-cases, Option-cases, eq-or-ne, ◌⊎◌, inl, inr}
use ech_os.Base.{Run, ok, ◌>>=◌, ◌≡◌, refl, sym, ap, ◌∙◌, arith, some, [], ◌∷◌}
use ech_os.Pmm.{Pmm, frames_allocate, frames_allocate_loop, keep, skips}
use ech_os.Pmm.Block.{PmBlock, Bitmap, frame_size, no_frame}
use ech_os.Pmm.Usage.{used, count_free}
use ech_os.Pmm.Valid.{IsValid, region, block_used, used_in, bitmap_valid}
use ech_os.Pmm.FindRun.{Blocked, FreeRange}
use ech_os.Pmm.BlockRun.{BlockRun, ClaimedRun, no_room, claimed_run, frames_allocate_from_block_lem}
use ech_os.Pmm.Layout.{
  Apart, PmmIsValid, PmmIsValid-cons, PmmIsValid-tail, layout, inside, frame_of,
}
use ech_os.Pmm.Layout.{is_free, is_free-Apart, free_frames}

-- `x` lies in one of the `count` frames from `address` on.
abbrev pub in_run : (address count x : ℕ) → Bool
in_run address count x = leb address x && ltb x (address + count * frame_size)

-- No block has `count` free frames in a row.
abbrev pub NoRun : Pmm → ℕ → Type 0
NoRun [] count = Unit
NoRun (b ∷ bs) count =
    ((s : ℕ) → s + count ≤ b.frames_total → Blocked (block_used b) s count) × NoRun bs count

-- The `count` frames from `address` on were free and are taken, and nothing else changes.
pub record TakenRun (p : Pmm) (count address : ℕ) (p' : Pmm) : Type 0 where
  pub was_free : (x : ℕ) → in_run address count x ≡ true → is_free p x ≡ true
  pub below : address + count * frame_size < 2 ^ 64
  pub now : (x : ℕ) → is_free p' x ≡ (if in_run address count x then false else is_free p x)
  pub same_layout : layout p' ≡ layout p
  pub valid : PmmIsValid p'
  pub less : free_frames p' + count ≡ free_frames p

pub data RunAllocation (p : Pmm) (count : ℕ) (r : Run (ℕ × Pmm)) : Type 0 where
  no_frames : NoRun p count → r ≡ ok (no_frame, p) → RunAllocation p count r
  frames :
      (address : ℕ) (p' : Pmm)
      → TakenRun p count address p'
      → r ≡ ok (address, p')
      → RunAllocation p count r

range-cases : (u : ℕ → Bool) (s n : ℕ) → Blocked u s n ⊎ FreeRange u s (s + n)
range-cases u s zero = inr (λ i p q. absurd (omega arith))
range-cases u s (suc n) = elim (range-cases u s n) [
  | inl (i, p, q, e) ↦ inl (i, p, omega arith, e)
  | inr free ↦ elim (Bool-cases (u (s + n))) [
    | inl taken ↦ inl (s + n, omega arith, omega arith, taken)
    | inr last ↦ inr (λ i p q. elim (eq-or-ne i (s + n)) [
      | inl here ↦ rw here last
      | inr before ↦ free i p (omega arith)
    ])
  ]
]

-- A run of free frames is counted.
count_free-range :
    (total : ℕ) (u : ℕ → Bool) (s n : ℕ)
    → s + n ≤ total
    → FreeRange u s (s + n)
    → n ≤ count_free total u
unfolding count_free
count_free-range zero u s n h free = omega arith
count_free-range (suc total) u s zero h free = omega arith
count_free-range (suc total) u s (suc n) h free = elim (eq-or-ne (s + suc n) (suc total)) [
  | inl last ↦
      let at : u total ≡ false = free total (omega arith) (omega arith) in
      rw at (
        omega (arith, count_free-range total u s n (omega arith) (λ i p q. free i p (omega arith))))
  | inr before ↦ omega (arith, count_free-range total u s (suc n) (omega arith) free)
]

-- A block that the loop skips has no such run.
skipped :
    (b : PmBlock) (count : ℕ)
    → IsValid b
    → 0 < count
    → skips b count ≡ true
    → (s : ℕ) → s + count ≤ b.frames_total
    → Blocked (block_used b) s count
skipped b count v pos h s low = elim (Option-cases b.bitmap) [
  | inl none_ ↦ (s, omega arith, omega arith, ap (λ t. used_in t s) none_)
  | inr (m, managed) ↦ elim (range-cases (block_used b) s count) [
    | inl blocked ↦ blocked
    | inr free ↦
        let bitmap = bitmap_valid v managed in
        let room =
          count_free-range b.frames_total (used m.words) s count low
            (λ i p q. sym (ap (λ t. used_in t i) managed) ∙ free i p q) in
        let few : ltb b.frames_free count ≡ true = ground arith in
        absurd (ground (arith, bitmap.counted))
  ]
]

module _ (b : PmBlock) (bs : Pmm) (apart : Apart (region b) (layout bs)) (count : ℕ) where
  TakenRun-head :
      (s : ℕ) (b' : PmBlock)
      → IsValid b
      → PmmIsValid bs
      → s + count ≤ b.frames_total
      → FreeRange (block_used b) s (s + count)
      → ClaimedRun b s count b'
      → TakenRun (b ∷ bs) count (b.address + s * frame_size) (b' ∷ bs)
  unfolding is_free free_frames
  TakenRun-head s b' v vs low free c = record {
    was_free = λ x e. ground (arith, free (frame_of (region b) x));
    below = omega (arith, v.fits);
    now = λ x.
        ap (λ t. if inside t x then not (block_used b' (frame_of t x)) else is_free bs x)
          c.same_region
        ∙ ap (λ t. if inside (region b) x then not t else is_free bs x)
            (c.usage (frame_of (region b) x))
        ∙ ground arith;
    same_layout = ap (λ t. t ∷ layout bs) c.same_region;
    valid = PmmIsValid-cons b b' bs bs apart c.valid vs c.same_region refl;
    less = omega (arith, c.less);
  }

  TakenRun-tail :
      (address : ℕ) (bs' : Pmm)
      → IsValid b
      → TakenRun bs count address bs'
      → TakenRun (b ∷ bs) count address (b ∷ bs')
  unfolding is_free free_frames
  TakenRun-tail address bs' v t = record {
    was_free = λ x e. ground (arith, t.was_free x e, is_free-Apart (region b) bs x apart);
    below = t.below;
    now = λ x. ground (arith, t.now x, t.was_free x, is_free-Apart (region b) bs x apart);
    same_layout = ap (λ l. region b ∷ l) t.same_layout;
    valid = PmmIsValid-cons b b bs bs' apart v t.valid refl t.same_layout;
    less = omega (arith, t.less);
  }

keep-eq :
    (b : PmBlock) {r : Run (ℕ × Pmm)} (a : ℕ) (bs : Pmm)
    → r ≡ ok (a, bs)
    → keep b r ≡ ok (a, b ∷ bs)
keep-eq b a bs e = rw e

RunAllocation-keep :
    (b : PmBlock) (bs : Pmm) (count : ℕ) {r : Run (ℕ × Pmm)}
    → Apart (region b) (layout bs)
    → IsValid b
    → ((s : ℕ) → s + count ≤ b.frames_total → Blocked (block_used b) s count)
    → RunAllocation bs count r
    → RunAllocation (b ∷ bs) count (keep b r)
RunAllocation-keep b bs count apart v full (no_frames z h) =
    no_frames (full, z) (keep-eq b no_frame bs h)
RunAllocation-keep b bs count apart v full (frames a bs' t h) =
    frames a (b ∷ bs') (TakenRun-tail b bs apart count a bs' v t) (keep-eq b a bs' h)

-- What the body of the loop makes of a block that it does not skip.
RunAllocation-block :
    (b : PmBlock) (bs : Pmm) (count : ℕ) {go_on : Run (ℕ × Pmm)} {r : Run (ℕ × PmBlock)}
    → Apart (region b) (layout bs)
    → IsValid b
    → PmmIsValid bs
    → 0 < count
    → RunAllocation bs count go_on
    → BlockRun b count r
    → RunAllocation
        (b ∷ bs)
        count
        (do (address, b') ← r; if address == no_frame then keep b' go_on else ok (address, b' ∷ bs))
RunAllocation-block b bs count apart v vs pos rest (no_room full h) =
    rw h (RunAllocation-keep b bs count apart v full rest)
RunAllocation-block b bs count apart v vs pos rest (claimed_run s b' low free first c h) =
    let real : (b.address + s * frame_size == no_frame) ≡ false = ground (arith, v.fits) in
    rw (h, real)
      (frames (b.address + s * frame_size) (b' ∷ bs)
        (TakenRun-head b bs apart count s b' v vs low free c) refl)

not_skipped : (b : PmBlock) (count : ℕ) → skips b count ≡ false → (m : Bitmap) × (b.bitmap ≡ some m)
not_skipped b count h = elim (Option-cases b.bitmap) [
  | inl none_ ↦ ground arith
  | inr found ↦ found
]

loop-RunAllocation :
    (p : Pmm) (count : ℕ)
    → 0 < count
    → PmmIsValid p
    → RunAllocation p count (frames_allocate_loop p count)
unfolding frames_allocate_loop
loop-RunAllocation [] count pos v = no_frames tt refl
loop-RunAllocation (b ∷ bs) count pos v =
    let rest = loop-RunAllocation bs count pos (PmmIsValid-tail b bs v) in
    let here = v.blocks_valid.0 in
    elim (Bool-cases (skips b count)) [
      | inl skip ↦
          rw skip
            (RunAllocation-keep b bs count v.disjoint.0 here (skipped b count here pos skip) rest)
      | inr try ↦
          let (m, managed) = not_skipped b count try in
          rw try (
            RunAllocation-block b bs count v.disjoint.0 here (PmmIsValid-tail b bs v) pos rest
              (frames_allocate_from_block_lem b m here managed count pos))
    ]

-- On a valid PMM and for a positive count `frames_allocate` does not fault. It returns `no_frame`
-- and the PMM as it was only if no block has that many free frames in a row; else it returns the
-- address of the first of `count` adjacent frames that were all free, takes these and no others,
-- keeps every block's region, leaves `count` free frames less and a valid PMM.
pub frames_allocate_lem :
    (p : Pmm) (count : ℕ)
    → 0 < count
    → PmmIsValid p
    → RunAllocation p count (frames_allocate p count)
unfolding frames_allocate
frames_allocate_lem p count pos v =
    let some_wanted : (count == 0) ≡ false = ground arith in
    rw some_wanted (loop-RunAllocation p count pos v)
