-- ===== src/Paging/MapRange/Round.antt =====
-- A round of `map_range`.
use ech_os.Base.{◌>>=◌, ℕ, ◌+◌, ◌-◌, ◌*◌, ◌/◌, ◌%◌, ◌^◌, ◌≤◌, ◌<◌}
use ech_os.Base.{◌≡◌, ◌≢◌, refl, ap, ◌∙◌, subst, arith, ◌⊎◌, Run, ok, bit_and, u64}
use ech_os.Pmm.Layout.{PmmIsValid, layout}
use ech_os.Paging.{
  Machine, Outcome, done, failed, get_table, page_size, large_page_size, phys_addr_mask,
}
use ech_os.Paging.{map_page, map_large_page}
use ech_os.Paging.Entries.{get_table_frame}
use ech_os.Paging.Translate.{span, stretch}
use ech_os.Paging.Tree.{Places, Tree}
use ech_os.Paging.Frames.{AllFrames}
use ech_os.Paging.Directory.{AllFrames-Kept}
use ech_os.Paging.MapPage.{Maps}
use ech_os.Paging.MapPage.Small.{map_page_lem}
use ech_os.Paging.MapPage.Large.{map_large_page_lem}
use ech_os.Paging.Span.{low48, stretch-page, stretch-page_ne, stretch-large, stretch-large_ne}
use ech_os.Paging.MapRange.{MapsPages, MapsPages-before, MapsPages-failed, MapsPages-step}

-- Where a page, and what is left of the range, may lie.
pub record InBounds (v p end : ℕ) : Type 0 where
  pub v_aligned : v % 4096 ≡ 0
  pub p_aligned : p % 4096 ≡ 0
  pub v_low : end ≤ 2 ^ 48
  pub p_low : v < end → p + (end - v) ≤ 2 ^ 52

InBounds-next : (v p end s : ℕ) → InBounds v p end → s % 4096 ≡ 0 → InBounds (v + s) (p + s) end
InBounds-next v p end s b h = record {
  v_aligned = omega (arith, b.v_aligned);
  p_aligned = omega (arith, b.p_aligned);
  v_low = b.v_low;
  p_low = λ l. omega (arith, b.p_low (omega arith));
}

-- A round: `go` is the rounds behind it.
module _ (pml4 v p end flags : ℕ) (go : Machine → (v p : ℕ) → Run (Outcome × Machine))
    (bounds : InBounds v p end) (more : v < end) (plain : bit_and flags phys_addr_mask ≡ 0)
    (step : (m : Machine) (place : Places) (s : ℕ)
      → Tree m pml4 place
      → PmmIsValid m.physical_memory
      → AllFrames (layout m.physical_memory)
      → 4096 ≤ s
      → InBounds (v + s) (p + s) end
      → MapsPages m pml4 place (v + s) (p + s) end (go m (v + s) (p + s))) where
  target : get_table p ≡ p
  target =
      let low = bounds.p_low more in get_table_frame p bounds.p_aligned (omega (arith, low, more))

  page_outer : (w : ℕ) → (low48 w < v) ⊎ (v + 4096 ≤ low48 w) → stretch 0 w ≢ stretch 0 v
  page_outer w h = stretch-page_ne v w bounds.v_aligned (omega (arith, bounds.v_low, more)) h

  page_inner :
      (w : ℕ)
      → v ≤ low48 w
      → low48 w < v + 4096
      → (stretch 0 w ≡ stretch 0 v) × (w % span 0 ≡ low48 w - v)
  page_inner w h k = stretch-page v w bounds.v_aligned (omega (arith, bounds.v_low, more)) h k

  -- A page was tried, and the rounds go on behind it, or with `other`.
  module _ (m : Machine) (place : Places) (l s : ℕ) (frames : AllFrames (layout m.physical_memory))
      (page : 4096 ≤ s) (short : s ≤ 0x200000) (whole : s % 4096 ≡ 0)
      (inner : (w : ℕ)
        → v ≤ low48 w
        → low48 w < v + s
        → (stretch l w ≡ stretch l v) × (w % span l ≡ low48 w - v))
      (outer : (w : ℕ) → (low48 w < v) ⊎ (v + s ≤ low48 w) → stretch l w ≢ stretch l v)
      (last : (w : ℕ) → end ≤ low48 w / 4096 * 4096 → v + s ≤ low48 w) {r : Run (Outcome × Machine)}
      (d : Maps m pml4 place l v p r) (other : Run (Outcome × Machine))
      (failing : d.outcome ≡ failed → MapsPages m pml4 place v p end other) where
    by_outcome :
        (o : Outcome)
        → d.outcome ≡ o
        → MapsPages m pml4 place v p end
            (elim o [ done ↦ go d.after (u64 (v + s)) (u64 (p + s)) | failed ↦ other ])
    by_outcome failed e = failing e
    by_outcome done e =
        let low = bounds.p_low more in
        let next_v : u64 (v + s) ≡ v + s = omega (arith, bounds.v_low, more) in
        let next_p : u64 (p + s) ≡ p + s = omega (arith, low, more) in
        rw (next_v, next_p)
          (MapsPages-step l s v p end inner outer last d e (
            step d.after d.places s d.tree d.kept.valid (AllFrames-Kept d.kept frames) page
              (InBounds-next v p end s bounds whole)))

  pub after_page :
      (m : Machine) (place : Places)
      → Tree m pml4 place
      → PmmIsValid m.physical_memory
      → AllFrames (layout m.physical_memory)
      → MapsPages m pml4 place v p end (do
        (small, m') ← map_page m pml4 v p flags
        elim small [
          | done ↦ go m' (u64 (v + page_size)) (u64 (p + page_size))
          | failed ↦ ok (failed, m')
        ])
  after_page m place tree valid frames =
      let d =
        subst (λ t. Maps m pml4 place 0 v t (map_page m pml4 v p flags)) target
          (map_page_lem m pml4 place v p flags tree valid frames plain) in
      rw d.returns (
        by_outcome m place 0 4096 frames (omega arith) (omega arith) refl page_inner page_outer
          (λ w h. omega (arith, h, more, bounds.v_aligned)) d (ok (failed, d.after))
          (λ e. MapsPages-failed end d e bounds.v_aligned more (omega (arith, bounds.v_low, more)))
          d.outcome refl)

  -- Behind the test for a large page.
  pub after_large :
      (m : Machine) (place : Places)
      → Tree m pml4 place
      → PmmIsValid m.physical_memory
      → AllFrames (layout m.physical_memory)
      → v % 0x200000 ≡ 0
      → p % 0x200000 ≡ 0
      → v + 0x200000 ≤ end
      → MapsPages m pml4 place v p end (do
        (large, m') ← map_large_page m pml4 v p flags
        elim large [
          | done ↦ go m' (u64 (v + large_page_size)) (u64 (p + large_page_size))
          | failed ↦ do
            (small, m'') ← map_page m' pml4 v p flags
            elim small [
              | done ↦ go m'' (u64 (v + page_size)) (u64 (p + page_size))
              | failed ↦ ok (failed, m'')
            ]
        ])
  after_large m place tree valid frames even_v even_p covers =
      let even : get_table p % 0x200000 ≡ 0 = ap (λ t. t % 0x200000) target ∙ even_p in
      let below : v < 2 ^ 48 = omega (arith, bounds.v_low, more) in
      let d =
        subst (λ t. Maps m pml4 place 1 v t (map_large_page m pml4 v p flags)) target
          (map_large_page_lem m pml4 place v p flags tree valid frames plain even) in
      rw d.returns (
        by_outcome m place 1 0x200000 frames (omega arith) (omega arith) refl
          (λ w h k. stretch-large v w even_v below h k) (λ w h. stretch-large_ne v w even_v below h)
          (λ w h. omega (arith, h, covers)) d _
          (λ e.
            MapsPages-before d.kept (d.on_failure e)
              (after_page d.after d.places d.tree d.kept.valid (AllFrames-Kept d.kept frames)))
          d.outcome refl)
