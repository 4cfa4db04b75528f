-- ===== src/Paging/NextTable.antt =====
-- What `next_table` returns.
pub mod Attached
pub mod Step
use ech_os.Base.{ℕ, zero, suc, ◌+◌, ◌*◌, ◌<◌, none}
use ech_os.Base.{◌≡◌, ◌≢◌, refl, arith, Run, ok}
use ech_os.Pmm.Layout.{PmmIsValid}
use ech_os.Paging.{Machine}
use ech_os.Paging.Kept.{Kept-refl, Starved}
use ech_os.Paging.Translate.{walk, slot}
use ech_os.Paging.Tree.{Places, Tree, Reaches}
use ech_os.Paging.Grow.{Grown}

-- The code returns a table of level `l` on the way to `v`, or NULL.
pub record NextTable (m : Machine) (pml4 : ℕ) (place : Places) (v l : ℕ) (r : Run (ℕ × Machine))
    : Type 0 where
  pub next : ℕ
  pub after : Machine
  pub returns : r ≡ ok (next, after)
  pub places : Places
  pub grown : Grown m after pml4 place places
  pub reached : next ≢ 0 → Reaches after.words pml4 v l next
  pub why_null : next ≡ 0 → Starved m.physical_memory after.physical_memory

pub Grown-refl :
    (m : Machine) (pml4 : ℕ) (place : Places)
    → Tree m pml4 place
    → PmmIsValid m.physical_memory
    → Grown m m pml4 place place
Grown-refl m pml4 place tree v = record {
  kept = Kept-refl m.physical_memory v;
  tree = tree;
  extends = λ t l q e. e;
  same_walk = λ w. refl;
  reaches = λ w l t r. r;
}

pub NextTable-null :
    (m : Machine) (pml4 : ℕ) (place : Places) (v l : ℕ)
    → Tree m pml4 place
    → PmmIsValid m.physical_memory
    → Starved m.physical_memory m.physical_memory
    → NextTable m pml4 place v l (ok (0, m))
NextTable-null m pml4 place v l tree valid why = record {
  next = 0;
  after = m;
  returns = refl;
  places = place;
  grown = Grown-refl m pml4 place tree valid;
  reached = λ ne. absurd (ne refl);
  why_null = λ e. why;
}

pub walk_empty :
    (l w f : ℕ) (words : ℕ → ℕ)
    → ((i : ℕ) → i < 512 → words (f + i * 8) ≡ 0)
    → walk l words f w ≡ none
unfolding walk
walk_empty zero w f words h = rw (h (slot 0 w) (omega arith)) refl
walk_empty (suc l) w f words h = rw (h (slot (suc l) w) (omega arith)) refl
