-- ===== src/Paging/Tree.antt =====
-- The page tables are a tree: every table stands at one place.
use ech_os.Base.{ℕ, zero, suc, ◌+◌, ◌*◌, ◌%◌, ◌<◌, if◌then◌else◌, Option, none, some, true, false}
use ech_os.Base.{◌≡◌, ◌≢◌, refl, sym, ap, ◌∙◌, arith, Bool-cases, inl, inr}
use ech_os.Pmm.Layout.{is_free, in_frame}
use ech_os.Paging.{Machine, has_bit, get_table, present_bit, page_size_bit}
use ech_os.Paging.Translate.{walk, stretch, slot, stretch-slot, stretch-top}

-- The level of a table, and the stretch of addresses that it maps.
abbrev pub Places : Type 0
Places = ℕ → Option (ℕ × ℕ)

-- Each table from `pml4` on has a frame of its own, one place, and no large page above level 1.
pub record Tree (m : Machine) (pml4 : ℕ) (place : Places) : Type 0 where
  pub root : place pml4 ≡ some (3, 0)
  pub not_null : (l q : ℕ) → place 0 ≢ some (l, q)
  pub aligned : (t l q : ℕ) → place t ≡ some (l, q) → t % 4096 ≡ 0
  pub in_use :
      (t l q x : ℕ)
      → place t ≡ some (l, q)
      → in_frame t x ≡ true
      → is_free m.physical_memory x ≡ false
  pub child :
      (t l q i : ℕ)
      → place t ≡ some (suc l, q)
      → i < 512
      → has_bit (m.words (t + i * 8)) present_bit ≡ true
      → has_bit (m.words (t + i * 8)) page_size_bit ≡ false
      → place (get_table (m.words (t + i * 8))) ≡ some (l, q * 512 + i)
  pub no_large :
      (t l q i : ℕ)
      → place t ≡ some (suc (suc l), q)
      → i < 512
      → has_bit (m.words (t + i * 8)) page_size_bit ≡ false

-- The walk for `v` comes to the table `t` of level `l`.
pub data Reaches (words : ℕ → ℕ) (pml4 v : ℕ) : (l t : ℕ) → Type 0 where
  at_root : (l t : ℕ) → l ≡ 3 → t ≡ pml4 → Reaches words pml4 v l t
  down :
      (l s t : ℕ)
      → Reaches words pml4 v (suc l) s
      → has_bit (words (s + slot (suc l) v * 8)) present_bit ≡ true
      → has_bit (words (s + slot (suc l) v * 8)) page_size_bit ≡ false
      → get_table (words (s + slot (suc l) v * 8)) ≡ t
      → Reaches words pml4 v l t

pub Reaches-place :
    {m : Machine} {pml4 : ℕ} {place : Places} (tree : Tree m pml4 place) (v l t : ℕ)
    → Reaches m.words pml4 v l t
    → place t ≡ some (l, stretch (suc l) v)
Reaches-place {m} {pml4} {place} tree v _ _ (at_root l t e f) =
    ap place f ∙ tree.root ∙ (let top = stretch-top v in rw (e, top) refl)
Reaches-place {m} {pml4} {place} tree v _ _ (down l s t r p n e) =
    ap place (sym e)
    ∙ tree.child s l (stretch (suc (suc l)) v) (slot (suc l) v) (Reaches-place tree v (suc l) s r)
        (omega arith) p n
    ∙ ap (λ q. some (l, q)) (stretch-slot (suc l) v)

pub Reaches-walk :
    (words : ℕ → ℕ) (pml4 v l t : ℕ)
    → Reaches words pml4 v l t
    → walk 3 words pml4 v ≡ walk l words t v
unfolding walk
Reaches-walk words pml4 v _ _ (at_root l t e f) = rw (e, f) refl
Reaches-walk words pml4 v _ _ (down l s t r p n e) =
    Reaches-walk words pml4 v (suc l) s r ∙ rw (p, n, e) refl

-- An entry of level `l` that a walk for `w` goes through before and behind a change of memory: as
-- it was, with the same table, or with an empty table in the place of none.
pub data Similar (l w : ℕ) (words' : ℕ → ℕ) (e e' : ℕ) : Type 0 where
  same : e' ≡ e → Similar l w words' e e'
  shared :
      (k : ℕ)
      → l ≡ suc k
      → has_bit e present_bit ≡ true
      → has_bit e' present_bit ≡ true
      → has_bit e page_size_bit ≡ false
      → has_bit e' page_size_bit ≡ false
      → get_table e' ≡ get_table e
      → Similar l w words' e e'
  attached :
      (k : ℕ)
      → l ≡ suc k
      → has_bit e present_bit ≡ false
      → has_bit e' present_bit ≡ true
      → has_bit e' page_size_bit ≡ false
      → walk k words' (get_table e') w ≡ none
      → Similar l w words' e e'

abbrev pub Alike : (words words' : ℕ → ℕ) → Places → (w : ℕ) → Type 0
Alike words words' place w =
    (t l : ℕ)
    → place t ≡ some (l, stretch (suc l) w)
    → Similar l w words' (words (t + slot l w * 8)) (words' (t + slot l w * 8))

-- What a walk makes of an entry above the page tables.
abbrev pub by_entry : (l w : ℕ) (words : ℕ → ℕ) (e : ℕ) → Option (ℕ × ℕ)
by_entry l w words e =
    if has_bit e present_bit
    then (if has_bit e page_size_bit then some (suc l, e) else walk l words (get_table e) w)
    else none

by_entry-Similar :
    (l w : ℕ) (words words' : ℕ → ℕ) (e e' : ℕ)
    → Similar (suc l) w words' e e'
    → (has_bit e present_bit ≡ true
        → has_bit e page_size_bit ≡ false
        → walk l words' (get_table e) w ≡ walk l words (get_table e) w)
    → by_entry l w words' e' ≡ by_entry l w words e
by_entry-Similar l w words words' e e' (same q) ih =
    rw q (elim (Bool-cases (has_bit e present_bit)) [
      | inr no_ ↦ rw no_ refl
      | inl p ↦ elim (Bool-cases (has_bit e page_size_bit)) [
        | inl large ↦ rw (p, large) refl
        | inr n ↦ let same = ih p n in rw (p, n) same
      ]
    ])
by_entry-Similar l w words words' e e' (shared k q p p' n n' a) ih =
    let same = ih p n in rw (p, p', n, n', a) same
by_entry-Similar l w words words' e e' (attached k q p p' n' a) ih =
    let at : l ≡ k = omega (arith, q) in rw (p, p', n', at) a

module _ {m : Machine} {pml4 : ℕ} {place : Places} (tree : Tree m pml4 place) (words' : ℕ → ℕ)
    (w : ℕ) (alike : Alike m.words words' place w) where
  pub Reaches-Alike : (l t : ℕ) → Reaches m.words pml4 w l t → Reaches words' pml4 w l t
  Reaches-Alike _ _ (at_root l t e f) = at_root l t e f
  Reaches-Alike _ _ (down l s t r p n e) =
      by_entry (alike s (suc l) (Reaches-place tree w (suc l) s r)) (Reaches-Alike (suc l) s r)
    where
      by_entry :
          Similar
            (suc l)
            w
            words'
            (m.words (s + slot (suc l) w * 8))
            (words' (s + slot (suc l) w * 8))
          → Reaches words' pml4 w (suc l) s
          → Reaches words' pml4 w l t
      by_entry (same q) r' = down l s t r' (rw q p) (rw q n) (rw q e)
      by_entry (shared k q p1 p' n1 n' a) r' = down l s t r' p' n' (a ∙ e)
      by_entry (attached k q p1 p' n' a) r' = absurd (cc)

  pub walk-Alike :
      (l t : ℕ) → place t ≡ some (l, stretch (suc l) w) → walk l words' t w ≡ walk l m.words t w
  unfolding walk
  walk-Alike zero t at = by_leaf (alike t 0 at)
    where
      by_leaf :
          Similar 0 w words' (m.words (t + slot 0 w * 8)) (words' (t + slot 0 w * 8))
          → walk 0 words' t w ≡ walk 0 m.words t w
      by_leaf (same q) = rw q refl
      by_leaf (shared k q p1 p' n1 n' a) = absurd (cc)
      by_leaf (attached k q p1 p' n' a) = absurd (cc)
  walk-Alike (suc l) t at =
      by_entry-Similar l w m.words words' (m.words (t + slot (suc l) w * 8))
        (words' (t + slot (suc l) w * 8)) (alike t (suc l) at)
        (λ p n. walk-Alike l (get_table (m.words (t + slot (suc l) w * 8))) (
          tree.child t l (stretch (suc (suc l)) w) (slot (suc l) w) at (omega arith) p n
          ∙ ap (λ q. some (l, q)) (stretch-slot (suc l) w)))
