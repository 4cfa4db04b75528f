-- ===== src/Paging/MapPage.antt =====
-- What `map_page` and `map_large_page` map.
pub mod Small
pub mod Large
use ech_os.Base.{ℕ, ◌+◌, ◌-◌, ◌%◌, ◌≤◌, ◌==◌, ◌&&◌, if◌then◌else◌, some, Bool, true, false}
use ech_os.Base.{◌≡◌, refl, ap, ◌∙◌, arith, inl, inr, ◌⊎◌, ◌≢◌, eq-or-ne, Run, ok}
use ech_os.Paging.{Machine, Outcome, done, failed, put_entry}
use ech_os.Paging.Kept.{Kept, Kept-refl, Kept-trans, Starved}
use ech_os.Paging.Translate.{walk, translate, address, physical, span, stretch, slot}
use ech_os.Paging.Tree.{Places, Tree, Reaches}
use ech_os.Paging.Grow.{Grown}
use ech_os.Paging.Leaf.{IsLeaf, Tree-new, walk-new_same, walk-new_other}

-- `v` is mapped, but not to `x`.
abbrev pub Elsewhere : (words : ℕ → ℕ) (pml4 v x : ℕ) → Type 0
Elsewhere words pml4 v x = (y : ℕ) × (translate words pml4 v ≡ some y) × (y ≢ x)

-- Where the code succeeds, the stretch of `v` at level `l` is mapped from `target` on, and every
-- other address as before. Where it fails, every address is.
pub record Maps (m : Machine) (pml4 : ℕ) (place : Places) (l v target : ℕ)
    (r : Run (Outcome × Machine)) : Type 0 where
  pub outcome : Outcome
  pub after : Machine
  pub returns : r ≡ ok (outcome, after)
  pub places : Places
  pub kept : Kept m.physical_memory after.physical_memory
  pub tree : Tree after pml4 places
  pub on_failure :
      outcome ≡ failed → (w : ℕ) → translate after.words pml4 w ≡ translate m.words pml4 w
  pub on_success :
      outcome ≡ done
      → (w : ℕ)
      → translate after.words pml4 w ≡ (
          if stretch l w == stretch l v
          then some (target + w % span l)
          else translate m.words pml4 w)
  -- A small page fails where no frame is left for a table, or the page is mapped elsewhere.
  pub why_failed :
      outcome ≡ failed
      → l ≡ 0
      → v % 4096 ≡ 0
      → Starved m.physical_memory after.physical_memory ⊎ Elsewhere m.words pml4 v target

pub translate-walk :
    (words words' : ℕ → ℕ) (pml4 w : ℕ)
    → walk 3 words' pml4 w ≡ walk 3 words pml4 w
    → translate words' pml4 w ≡ translate words pml4 w
unfolding translate
translate-walk words words' pml4 w e = ap (λ o. address o w) e

pub translate-leaf :
    (words : ℕ → ℕ) (pml4 w l e target : ℕ)
    → walk 3 words pml4 w ≡ some (l, e)
    → physical l e w ≡ target
    → translate words pml4 w ≡ some target
unfolding translate
translate-leaf words pml4 w l e target h k = ap (λ o. address o w) h ∙ ap some k

pub and_left : (a b : Bool) → (a && b) ≡ true → a ≡ true
and_left a b h = ground arith

pub not_both : (a b : Bool) → (a && b) ≡ false → a ≡ true → b ≡ false
not_both a b h p = ground arith

pub and_right : (a b : Bool) → (a && b) ≡ true → b ≡ true
and_right a b h = ground arith

-- What fails behind steps that only added tables.
pub Maps-failed :
    {m n : Machine} {pml4 : ℕ} {place places : Places} (l v target : ℕ)
    → Grown m n pml4 place places
    → (l ≡ 0
        → v % 4096 ≡ 0
        → Starved m.physical_memory n.physical_memory ⊎ Elsewhere m.words pml4 v target)
    → Maps m pml4 place l v target (ok (failed, n))
Maps-failed {m} {n} {pml4} {place} {places} l v target g why = record {
  outcome = failed;
  after = n;
  returns = refl;
  places = places;
  kept = g.kept;
  tree = g.tree;
  on_failure = λ e w. translate-walk m.words n.words pml4 w (g.same_walk w);
  on_success = λ e. absurd (cc);
  why_failed = λ e. why;
}

-- The write of the entry that maps the page, behind such steps.
module _ {m n : Machine} {pml4 : ℕ} {place places : Places} (g : Grown m n pml4 place places)
    (l v t e' target : ℕ) (way : Reaches n.words pml4 v l t) (leaf : IsLeaf l e') (low : l ≤ 1)
    (right : (w : ℕ) → physical l e' w ≡ target + w % span l) where
  pub Maps-put_entry : Maps m pml4 place l v target (ok (done, put_entry n t (slot l v) e'))
  Maps-put_entry = record {
    outcome = done;
    after = put_entry n t (slot l v) e';
    returns = refl;
    places = places;
    kept = Kept-trans g.kept (unfold put_entry in Kept-refl n.physical_memory g.kept.valid);
    tree = Tree-new g.tree v l t e' way leaf low;
    on_failure = λ e. absurd (cc);
    on_success = λ e w. mapped w;
    why_failed = λ e. absurd (cc);
  }
    where
      words' : ℕ → ℕ
      words' = (put_entry n t (slot l v) e').words

      mapped :
          (w : ℕ)
          → translate words' pml4 w ≡ (
              if stretch l w == stretch l v
              then some (target + w % span l)
              else translate m.words pml4 w)
      mapped w = elim (eq-or-ne (stretch l w) (stretch l v)) [
        | inl here ↦
            let yes_ : (stretch l w == stretch l v) ≡ true = ground arith in
            rw yes_ (
              translate-leaf words' pml4 w l e' (target + w % span l)
                (walk-new_same g.tree v l t e' way leaf low w here) (right w))
        | inr other ↦
            let no_ : (stretch l w == stretch l v) ≡ false = ground arith in
            rw no_ (
              translate-walk m.words words' pml4 w
                (walk-new_other g.tree v l t e' way leaf low w other ∙ g.same_walk w))
      ]
