-- ===== src/Heap/Release.antt =====
-- The loop of `get_heap` that gives the frames of a run back.
use ech_os.Base.{ℕ, zero, suc, ◌+◌, ◌*◌, ◌^◌, ◌<◌, true, if◌then◌else◌, u64, Run, ok}
use ech_os.Base.{◌>>=◌, ◌≡◌, refl, sym, ◌∙◌, arith, some}
use mathlib.Core.Option.{some-injective}
use ech_os.Pmm.{Pmm, frame_free}
use ech_os.Pmm.Layout.{PmmIsValid, layout, is_free, frame_base}
use ech_os.Pmm.FrameFree.{Release, Freed, foreign, frame, frame_free_lem}
use ech_os.Pmm.FramesAllocate.{in_run}
use ech_os.Paging.{page_size}
use ech_os.Heap.{release_frames}

-- The frames of the run are free, and every other one is as it was.
pub record GivenBack (p : Pmm) (count address : ℕ) (r : Run Pmm) : Type 0 where
  pub after : Pmm
  pub returns : r ≡ ok after
  pub valid : PmmIsValid after
  pub same_layout : layout after ≡ layout p
  pub now : (x : ℕ) → is_free after x ≡ (if in_run address count x then true else is_free p x)

-- The frame of the run's first address.
frame_free-own :
    (p : Pmm) (x : ℕ)
    → frame_base (layout p) x ≡ some x
    → Release p x (frame_free p x)
    → (after : Pmm) × (frame_free p x ≡ ok after) × Freed p x x after
frame_free-own p x at (foreign e r) = absurd (cc)
frame_free-own p x at (frame base p' e f r) =
    let same : x ≡ base = some-injective _ _ (sym at ∙ e) in (p', r, rw (← same) at f)

after_first :
    {x y : ℕ} (p q : Pmm) {r : Run Pmm} (go : Pmm → Run Pmm)
    → y ≡ x
    → frame_free p x ≡ ok q
    → go q ≡ r
    → (do blocks ← frame_free p y; go blocks) ≡ r
after_first p q go e f g = rw (e, f) g

pub release_frames-GivenBack :
    (left i paddr : ℕ) (p : Pmm)
    → PmmIsValid p
    → paddr + (i + left) * page_size < 2 ^ 64
    → ((j : ℕ)
        → j < left
        → frame_base (layout p) (paddr + (i + j) * page_size) ≡ some (paddr + (i + j) * page_size))
    → GivenBack p left (paddr + i * page_size) (release_frames left i paddr p)
unfolding release_frames
release_frames-GivenBack zero i paddr p v fits bases = record {
  after = p;
  returns = refl;
  valid = v;
  same_layout = refl;
  now = λ x. ground arith;
}
release_frames-GivenBack (suc left) i paddr p v fits bases =
    let at : u64 (paddr + u64 (i * page_size)) ≡ paddr + i * page_size = omega (arith, fits) in
    let here : i + 0 ≡ i = omega arith in
    let one =
      frame_free-own p (paddr + i * page_size) (rw here at (bases 0 (omega arith)))
        (frame_free_lem p (paddr + i * page_size) v) in
    let freed = one.2 in
    let rest =
      release_frames-GivenBack left (i + 1) paddr one.0 freed.valid (omega (arith, fits)) (λ j h.
        let next : i + 1 + j ≡ i + suc j = omega arith in
        rw (freed.same_layout, next) (bases (suc j) (omega arith))) in
    record {
      after = rest.after;
      returns =
          after_first p one.0 (λ b. release_frames left (i + 1) paddr b) at one.1 rest.returns;
      valid = rest.valid;
      same_layout = rest.same_layout ∙ freed.same_layout;
      now = λ x. rest.now x ∙ ground (arith, freed.now x);
    }
