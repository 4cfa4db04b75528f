-- ===== src/Paging/Leaf.antt =====
-- A write that maps a page: the addresses of the page are mapped by it, all others as before.
use ech_os.Base.{ℕ, zero, suc, ◌+◌, ◌*◌, ◌/◌, ◌%◌, ◌≤◌, some, true}
use ech_os.Base.{◌≡◌, ◌≢◌, refl, sym, ap, ◌∙◌, arith}
use ech_os.Paging.{Machine, has_bit, present_bit, page_size_bit, put_entry}
use ech_os.Paging.Translate.{walk, stretch, slot, stretch-suc, stretch-slot}
use ech_os.Paging.Tree.{
  Places, Tree, Reaches, at_root, down, Reaches-place, Reaches-walk, walk-Alike,
}
use ech_os.Paging.Grow.{written, unwritten, Tree-put_entry, Alike-put_entry, same_place}

-- An entry that ends the walk at a level.
abbrev pub IsLeaf : (l e : ℕ) → Type 0
IsLeaf zero e = has_bit e present_bit ≡ true
IsLeaf (suc l) e = (has_bit e present_bit ≡ true) × (has_bit e page_size_bit ≡ true)

-- Addresses of one stretch of a level share the stretches above.
stretch-above : (l v w : ℕ) → stretch l v ≡ stretch l w → stretch (suc l) v ≡ stretch (suc l) w
stretch-above l v w e = stretch-suc l v ∙ ap (λ x. x / 512) e ∙ sym (stretch-suc l w)

-- So the walks for them go the same way.
pub Reaches-stretch :
    (words : ℕ → ℕ) (pml4 v w l t : ℕ)
    → stretch l v ≡ stretch l w
    → Reaches words pml4 v l t
    → Reaches words pml4 w l t
Reaches-stretch words pml4 v w _ _ e (at_root l t a b) = at_root l t a b
Reaches-stretch words pml4 v w _ _ e (down l s t r p n a) =
    let above = stretch-above l v w e in
    let one : slot (suc l) v ≡ slot (suc l) w = ap (λ x. x % 512) above in
    down l s t (Reaches-stretch words pml4 v w (suc l) s above r) (rw one at p) (rw one at n)
      (rw one at a)

leaf-page_size : (l k e : ℕ) → IsLeaf l e → l ≡ suc k → has_bit e page_size_bit ≡ true
leaf-page_size zero k e leaf h = absurd (omega (arith, h))
leaf-page_size (suc l) k e leaf h = leaf.1

pub walk-IsLeaf :
    (words : ℕ → ℕ) (l t w : ℕ)
    → IsLeaf l (words (t + slot l w * 8))
    → walk l words t w ≡ some (l, words (t + slot l w * 8))
unfolding walk
walk-IsLeaf words zero t w p = rw p refl
walk-IsLeaf words (suc l) t w p = rw (p.0, p.1) refl

module _ {m : Machine} {pml4 : ℕ} {place : Places} (tree : Tree m pml4 place) (v l t e' : ℕ)
    (way : Reaches m.words pml4 v l t) (leaf : IsLeaf l e') (low : l ≤ 1) where
  abbrev pub with_leaf : Machine
  with_leaf = put_entry m t (slot l v) e'

  at : place t ≡ some (l, stretch (suc l) v)
  at = Reaches-place tree v l t way

  Reaches-new :
      (w k s : ℕ) → l ≤ k → Reaches m.words pml4 w k s → Reaches with_leaf.words pml4 w k s
  Reaches-new w _ _ h (at_root k s a b) = at_root k s a b
  Reaches-new w _ _ h (down k s s' r p n a) =
      let old : with_leaf.words (s + slot (suc k) w * 8) ≡ m.words (s + slot (suc k) w * 8) =
        unwritten m t (slot l v) e' (s + slot (suc k) w * 8) (λ x.
          let it =
            same_place tree t l (stretch (suc l) v) (slot l v) e' at (omega arith) s (suc k)
              (stretch (suc (suc k)) w) (slot (suc k) w) (Reaches-place tree w (suc k) s r)
              (omega arith) x in
          absurd (omega (arith, it.0))) in
      down k s s' (Reaches-new w (suc k) s (omega arith) r) (rw old p) (rw old n) (rw old a)

  pub Tree-new : Tree with_leaf pml4 place
  Tree-new =
      Tree-put_entry tree t l (stretch (suc l) v) (slot l v) e' at (omega arith)
        (λ k h p n. let large = leaf-page_size l k e' leaf h in absurd (cc))
        (λ k h. absurd (omega (arith, h)))

  pub walk-new_same :
      (w : ℕ) → stretch l w ≡ stretch l v → walk 3 with_leaf.words pml4 w ≡ some (l, e')
  walk-new_same w e =
      let there : with_leaf.words (t + slot l w * 8) ≡ e' =
        written m t (slot l v) e' (t + slot l w * 8) (ap (λ x. t + x % 512 * 8) e) in
      Reaches-walk with_leaf.words pml4 w l t
        (Reaches-new w l t (omega arith) (Reaches-stretch m.words pml4 v w l t (sym e) way))
      ∙ walk-IsLeaf with_leaf.words l t w (rw there leaf)
      ∙ ap (λ x. some (l, x)) there

  pub walk-new_other :
      (w : ℕ) → stretch l w ≢ stretch l v → walk 3 with_leaf.words pml4 w ≡ walk 3 m.words pml4 w
  walk-new_other w ne =
      walk-Alike tree with_leaf.words w
        (Alike-put_entry tree t l (stretch (suc l) v) (slot l v) e' at (omega arith) w (λ a b.
          absurd (
            ne (
              sym (stretch-slot l w)
              ∙ ap (λ x. x * 512 + slot l w) (sym a)
              ∙ ap (λ x. stretch (suc l) v * 512 + x) (sym b)
              ∙ stretch-slot l v))))
        3 pml4 (tree.root ∙ ap (λ q. some (3, q)) (omega arith))
