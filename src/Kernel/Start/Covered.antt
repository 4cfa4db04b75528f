-- ===== src/Kernel/Start/Covered.antt =====
-- The addresses that `init_paging` maps, and a mapping of such addresses to themselves.
use ech_os.Base.{
  [], ◌>>=◌, ℕ, ◌+◌, ◌*◌, ◌/◌, ◌&&◌, ◌||◌, ltb, not, if◌then◌else◌, List, ◌∷◌, some, Bool, true,
  false,
}
use ech_os.Base.{◌≡◌, refl, sym, ap, ◌∙◌, arith, Bool-cases, inl, inr, ◌⊎◌, Run, ok}
use ech_os.Pmm.Valid.{Region}
use ech_os.Pmm.Block.{frame_size}
use ech_os.Pmm.Layout.{PmmIsValid, end_of}
use ech_os.Paging.{Machine, Outcome, done, failed}
use ech_os.Pmm.{Pmm}
use ech_os.Paging.Kept.{Kept, Kept-refl, Kept-trans, Starved, Starved-Kept}
use ech_os.Paging.MapPage.{Elsewhere}
use ech_os.Paging.Translate.{translate}
use ech_os.Paging.Tree.{Places, Tree}
use ech_os.Paging.Span.{low48, in_pages, in_pages-true}
use ech_os.Paging.MapRange.{MapsPages, Conflict}
use ech_os.Kernel.Colonel.{Framebuffer}
use ech_os.Kernel.Start.{is_left_out, fb_length}

-- The pages of a region, short of page 0.
abbrev pub first_of : Region → ℕ
first_of r = if ltb r.address frame_size then frame_size else r.address

abbrev pub in_region : Region → (w : ℕ) → Bool
in_region r w = not (is_left_out r.type) && in_pages (first_of r) (end_of r) w

abbrev pub in_regions : List Region → (w : ℕ) → Bool
in_regions [] w = false
in_regions (r ∷ rs) w = in_region r w || in_regions rs w

-- The pages that the framebuffer touches.
abbrev pub in_framebuffer : Framebuffer → (w : ℕ) → Bool
in_framebuffer fb w = in_pages (fb.buffer / 4096 * 4096) (fb.buffer + fb_length fb) w

-- An address is mapped to another one.
abbrev pub Moved : (words : ℕ → ℕ) (pml4 : ℕ) → Type 0
Moved words pml4 = (w : ℕ) × Elsewhere words pml4 w (low48 w)

-- Where the code succeeds, the addresses of `on` are mapped to themselves. All others are mapped
-- as before, also where it fails.
pub record MapsSame (m : Machine) (pml4 : ℕ) (on : ℕ → Bool) (r : Run (Outcome × Machine))
    : Type 0 where
  pub outcome : Outcome
  pub after : Machine
  pub returns : r ≡ ok (outcome, after)
  pub places : Places
  pub kept : Kept m.physical_memory after.physical_memory
  pub tree : Tree after pml4 places
  pub inside :
      outcome ≡ done → (w : ℕ) → on w ≡ true → translate after.words pml4 w ≡ some (low48 w)
  pub outside : (w : ℕ) → on w ≡ false → translate after.words pml4 w ≡ translate m.words pml4 w
  -- It fails where no frame is left for a table, or an address is mapped to another one.
  pub why_failed :
      outcome ≡ failed → Starved m.physical_memory after.physical_memory ⊎ Moved m.words pml4

pub MapsSame-refl :
    (m : Machine) (pml4 : ℕ) (place : Places) (on : ℕ → Bool)
    → Tree m pml4 place
    → PmmIsValid m.physical_memory
    → ((w : ℕ) → on w ≡ false)
    → MapsSame m pml4 on (ok (done, m))
MapsSame-refl m pml4 place on tree valid none_ = record {
  outcome = done;
  after = m;
  returns = refl;
  places = place;
  kept = Kept-refl m.physical_memory valid;
  tree = tree;
  inside = λ e w h. let no_ = none_ w in absurd (cc);
  outside = λ w h. refl;
  why_failed = λ e. absurd (cc);
}

-- A range that is mapped to itself.
pub MapsPages-MapsSame :
    {m : Machine} {pml4 : ℕ} {place : Places} {first end : ℕ} {r : Run (Outcome × Machine)}
    (on : ℕ → Bool)
    → ((w : ℕ) → on w ≡ in_pages first end w)
    → MapsPages m pml4 place first first end r
    → MapsSame m pml4 on r
MapsPages-MapsSame {m} {pml4} {first} {end} on same d = record {
  outcome = d.outcome;
  after = d.after;
  returns = d.returns;
  places = d.places;
  kept = d.kept;
  tree = d.tree;
  inside = λ e w h.
      let here : in_pages first end w ≡ true = sym (same w) ∙ h in
      let from = (in_pages-true first end w here).0 in
      d.inside e w here ∙ ap some (omega (arith, from));
  outside = λ w h. d.outside w (sym (same w) ∙ h);
  why_failed = λ e. moved (d.why_failed e);
}
  where
    moved :
        Starved m.physical_memory d.after.physical_memory ⊎ Conflict m.words pml4 first first end
        → Starved m.physical_memory d.after.physical_memory ⊎ Moved m.words pml4
    moved (inl none_) = inl none_
    moved (inr (w, at, (y, here, ne))) =
        let from = (in_pages-true first end w at).0 in
        inr (w, (y, here, λ z. ne (omega (arith, z, from))))

-- One piece of code behind another that succeeded.
module _ {m : Machine} {pml4 : ℕ} (on on' : ℕ → Bool) {r : Run (Outcome × Machine)}
    (d : MapsSame m pml4 on r) (next : Outcome → Machine → Run (Outcome × Machine))
    (stop : (n : Machine) → next failed n ≡ ok (failed, n))
    (go : (n : Machine) (place : Places)
      → Tree n pml4 place
      → Kept m.physical_memory n.physical_memory
      → MapsSame n pml4 on' (next done n)) where
  moved :
      {p : Pmm}
      → d.outcome ≡ done
      → Kept d.after.physical_memory p
      → Starved d.after.physical_memory p ⊎ Moved d.after.words pml4
      → Starved m.physical_memory p ⊎ Moved m.words pml4
  moved {p} e k (inl none_) =
      inl (Starved-Kept m.physical_memory d.after.physical_memory p d.kept none_)
  moved e k (inr (w, (y, at, ne))) = elim (Bool-cases (on w)) [
    | inl here ↦ let same = d.inside e w here in absurd (ne (by_some (sym at ∙ same)))
    | inr other ↦ inr (w, (y, sym (d.outside w other) ∙ at, ne))
  ]
    where
      by_some : {a b : ℕ} → some a ≡ some b → a ≡ b
      by_some e = cc

  by_outcome : (o : Outcome) → d.outcome ≡ o → MapsSame m pml4 (λ w. on w || on' w) (next o d.after)
  by_outcome failed e = rw (stop d.after) (record {
    outcome = failed;
    after = d.after;
    returns = refl;
    places = d.places;
    kept = d.kept;
    tree = d.tree;
    inside = λ f w h. absurd (cc);
    outside = λ w h. d.outside w (ground arith);
    why_failed = λ f. d.why_failed e;
  })
  by_outcome done e =
      let rest = go d.after d.places d.tree d.kept in
      record {
        outcome = rest.outcome;
        after = rest.after;
        returns = rest.returns;
        places = rest.places;
        kept = Kept-trans d.kept rest.kept;
        tree = rest.tree;
        inside = λ f w h. elim (Bool-cases (on' w)) [
          | inl here ↦ rest.inside f w here
          | inr other ↦ rest.outside w other ∙ d.inside e w (ground arith)
        ];
        outside = λ w h. rest.outside w (ground arith) ∙ d.outside w (ground arith);
        why_failed = λ f. moved e rest.kept (rest.why_failed f);
      }

  pub MapsSame-then : MapsSame m pml4 (λ w. on w || on' w) (do (o, n) ← r; next o n)
  MapsSame-then = rw d.returns (by_outcome d.outcome refl)
