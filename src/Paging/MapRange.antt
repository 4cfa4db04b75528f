-- ===== src/Paging/MapRange.antt =====
-- `map_range`, a page at a time.
pub mod Round
pub mod Loop
use ech_os.Base.{ℕ, ◌+◌, ◌-◌, ◌*◌, ◌/◌, ◌%◌, ◌^◌, ◌≤◌, ◌<◌, ◌==◌, some, true, false}
use ech_os.Base.{◌≡◌, ◌≢◌, refl, sym, ap, ◌∙◌, arith, inl, inr, lt-or-le, ◌⊎◌, Run, ok}
use ech_os.Pmm.Layout.{PmmIsValid}
use ech_os.Paging.{Machine, Outcome, done, failed}
use ech_os.Paging.Kept.{Kept, Kept-refl, Kept-trans, Starved, Starved-Kept}
use ech_os.Paging.Translate.{translate, span, stretch}
use ech_os.Paging.Tree.{Places, Tree}
use ech_os.Paging.MapPage.{Maps, Elsewhere}
use ech_os.Paging.Span.{low48, in_pages, in_pages-true, in_pages-false, in_pages-of, not-in_pages}

-- A page of the range is mapped, but elsewhere.
abbrev pub Conflict : (words : ℕ → ℕ) (pml4 first target end : ℕ) → Type 0
Conflict words pml4 first target end =
    (w : ℕ) × (in_pages first end w ≡ true) × Elsewhere words pml4 w (target + (low48 w - first))

-- Where the code succeeds, the pages from `first` to `end` are mapped from `target` on. Every address
-- outside of them is mapped as before, also where it fails.
pub record MapsPages (m : Machine) (pml4 : ℕ) (place : Places) (first target end : ℕ)
    (r : Run (Outcome × Machine)) : Type 0 where
  pub outcome : Outcome
  pub after : Machine
  pub returns : r ≡ ok (outcome, after)
  pub places : Places
  pub kept : Kept m.physical_memory after.physical_memory
  pub tree : Tree after pml4 places
  pub inside :
      outcome ≡ done
      → (w : ℕ) → in_pages first end w ≡ true
      → translate after.words pml4 w ≡ some (target + (low48 w - first))
  pub outside :
      (w : ℕ)
      → in_pages first end w ≡ false
      → translate after.words pml4 w ≡ translate m.words pml4 w
  -- It fails where no frame is left for a table, or a page of the range is mapped elsewhere.
  pub why_failed :
      outcome ≡ failed
      → Starved m.physical_memory after.physical_memory ⊎ Conflict m.words pml4 first target end

-- Behind a step that changes nothing of what is mapped.
pub MapsPages-before :
    {m n : Machine} {pml4 : ℕ} {place places : Places} {first target end : ℕ}
    {r : Run (Outcome × Machine)}
    → Kept m.physical_memory n.physical_memory
    → ((w : ℕ) → translate n.words pml4 w ≡ translate m.words pml4 w)
    → MapsPages n pml4 places first target end r
    → MapsPages m pml4 place first target end r
MapsPages-before {m} {n} {pml4} {first} {target} {end} k same d = record {
  outcome = d.outcome;
  after = d.after;
  returns = d.returns;
  places = d.places;
  kept = Kept-trans k d.kept;
  tree = d.tree;
  inside = d.inside;
  outside = λ w h. d.outside w h ∙ same w;
  why_failed = λ e. transferred (d.why_failed e);
}
  where
    transferred :
        Starved n.physical_memory d.after.physical_memory ⊎ Conflict n.words pml4 first target end
        → Starved m.physical_memory d.after.physical_memory ⊎ Conflict m.words pml4 first target end
    transferred (inl none_) =
        inl (Starved-Kept m.physical_memory n.physical_memory d.after.physical_memory k none_)
    transferred (inr (w, on, (y, at, ne))) = inr (w, on, (y, sym (same w) ∙ at, ne))

pub MapsPages-refl :
    (m : Machine) (pml4 : ℕ) (place : Places) (first target end : ℕ)
    → Tree m pml4 place
    → PmmIsValid m.physical_memory
    → ((w : ℕ) → in_pages first end w ≡ false)
    → MapsPages m pml4 place first target end (ok (done, m))
MapsPages-refl m pml4 place first target end tree valid none_ = record {
  outcome = done;
  after = m;
  returns = refl;
  places = place;
  kept = Kept-refl m.physical_memory valid;
  tree = tree;
  inside = λ e w h. let no_ = none_ w in absurd (cc);
  outside = λ w h. refl;
  why_failed = λ e. absurd (cc);
}

-- The range ends at a page that cannot be mapped.
pub MapsPages-failed :
    {m : Machine} {pml4 : ℕ} {place : Places} {v target : ℕ} {r : Run (Outcome × Machine)} (end : ℕ)
    → (d : Maps m pml4 place 0 v target r) → d.outcome ≡ failed
    → v % 4096 ≡ 0
    → v < end
    → v < 2 ^ 48
    → MapsPages m pml4 place v target end (ok (failed, d.after))
MapsPages-failed {m} {pml4} {v} {target} end d e aligned more low = record {
  outcome = failed;
  after = d.after;
  returns = refl;
  places = d.places;
  kept = d.kept;
  tree = d.tree;
  inside = λ f w h. absurd (cc);
  outside = λ w h. d.on_failure e w;
  why_failed = λ f. at_page (d.why_failed e refl aligned);
}
  where
    at_page :
        Starved m.physical_memory d.after.physical_memory ⊎ Elsewhere m.words pml4 v target
        → Starved m.physical_memory d.after.physical_memory ⊎ Conflict m.words pml4 v target end
    at_page (inl none_) = inl none_
    at_page (inr (y, at, ne)) =
        inr
          (v, in_pages-of v end v (omega arith) (omega arith), (y, at, λ z. ne (omega (arith, z))))

-- A page of level `l` with `s` bytes at `v`, and what is mapped behind it.
module _ {m : Machine} {pml4 : ℕ} {place : Places} (l s v target end : ℕ)
    (inner : (w : ℕ)
      → v ≤ low48 w
      → low48 w < v + s
      → (stretch l w ≡ stretch l v) × (w % span l ≡ low48 w - v))
    (outer : (w : ℕ) → (low48 w < v) ⊎ (v + s ≤ low48 w) → stretch l w ≢ stretch l v)
    (last : (w : ℕ) → end ≤ low48 w / 4096 * 4096 → v + s ≤ low48 w) {r : Run (Outcome × Machine)}
    (d : Maps m pml4 place l v target r) (success : d.outcome ≡ done) where
  pub MapsPages-step :
      {r' : Run (Outcome × Machine)}
      → MapsPages d.after pml4 d.places (v + s) (target + s) end r'
      → MapsPages m pml4 place v target end r'
  MapsPages-step rest = record {
    outcome = rest.outcome;
    after = rest.after;
    returns = rest.returns;
    places = rest.places;
    kept = Kept-trans d.kept rest.kept;
    tree = rest.tree;
    inside = λ e w h. elim (lt-or-le (low48 w) (v + s)) [
      | inl near ↦
          let it = inner w (in_pages-true v end w h).0 near in
          let yes_ : (stretch l w == stretch l v) ≡ true = (let same = it.0 in ground arith) in
          rest.outside w (not-in_pages (v + s) end w (inl near))
          ∙ d.on_success success w
          ∙ rw (yes_, it.1) refl
      | inr far ↦
          rest.inside e w (in_pages-of (v + s) end w far (in_pages-true v end w h).1)
          ∙ ap some (omega (arith, far))
    ];
    outside = λ w h.
        let out = in_pages-false v end w h in
        rest.outside w (not-in_pages (v + s) end w (weaken w out)) ∙ apart w (behind w out);
    why_failed = λ e. transferred (rest.why_failed e);
  }
    where
      apart :
          (w : ℕ)
          → (low48 w < v) ⊎ (v + s ≤ low48 w)
          → translate d.after.words pml4 w ≡ translate m.words pml4 w
      apart w out =
          let no_ : (stretch l w == stretch l v) ≡ false = (let ne = outer w out in ground arith) in
          d.on_success success w ∙ rw no_ refl

      behind :
          (w : ℕ)
          → (low48 w < v) ⊎ (end ≤ low48 w / 4096 * 4096)
          → (low48 w < v) ⊎ (v + s ≤ low48 w)
      behind w (inl a) = inl a
      behind w (inr b) = inr (last w b)

      weaken :
          (w : ℕ)
          → (low48 w < v) ⊎ (end ≤ low48 w / 4096 * 4096)
          → (low48 w < v + s) ⊎ (end ≤ low48 w / 4096 * 4096)
      weaken w (inl a) = inl (omega arith)
      weaken w (inr b) = inr b

      transferred :
          Starved d.after.physical_memory rest.after.physical_memory
            ⊎ Conflict d.after.words pml4 (v + s) (target + s) end
          → Starved m.physical_memory rest.after.physical_memory
            ⊎ Conflict m.words pml4 v target end
      transferred (inl none_) = inl (
          Starved-Kept m.physical_memory d.after.physical_memory rest.after.physical_memory d.kept
            none_)
      transferred (inr (w, on, (y, at, ne))) =
          let here = in_pages-true (v + s) end w on in
          inr (
            w,
            in_pages-of v end w (omega (arith, here.0)) here.1,
            (y, sym (apart w (inr here.0)) ∙ at, λ z. ne (omega (arith, z, here.0))),
          )
