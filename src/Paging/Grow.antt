-- ===== src/Paging/Grow.antt =====
-- Steps that leave every address mapped as it was: fresh tables, and writes between tables.
use ech_os.Base.{ℕ, suc, ◌+◌, ◌*◌, ◌<◌, some, true, false}
use ech_os.Base.{◌≡◌, ◌≢◌, sym, ap, ◌∙◌, arith, inl, inr, eq-or-ne}
use ech_os.Paging.{Machine, has_bit, get_table, present_bit, page_size_bit, put_entry}
use ech_os.Paging.Kept.{Kept, Kept-trans}
use ech_os.Paging.Translate.{walk, stretch, slot}
use ech_os.Paging.Tree.{Places, Tree, Reaches, Similar, same, Alike, walk-Alike, Reaches-Alike}

-- From `m` to `m'` tables were added, and no address is mapped otherwise.
pub record Grown (m m' : Machine) (pml4 : ℕ) (place place' : Places) : Type 0 where
  pub kept : Kept m.physical_memory m'.physical_memory
  pub tree : Tree m' pml4 place'
  pub extends : (t l q : ℕ) → place t ≡ some (l, q) → place' t ≡ some (l, q)
  pub same_walk : (w : ℕ) → walk 3 m'.words pml4 w ≡ walk 3 m.words pml4 w
  pub reaches : (w l t : ℕ) → Reaches m.words pml4 w l t → Reaches m'.words pml4 w l t

pub Grown-trans :
    {m n o : Machine} {pml4 : ℕ} {p q r : Places}
    → Grown m n pml4 p q
    → Grown n o pml4 q r
    → Grown m o pml4 p r
Grown-trans a b = record {
  kept = Kept-trans a.kept b.kept;
  tree = b.tree;
  extends = λ t l q e. b.extends t l q (a.extends t l q e);
  same_walk = λ w. b.same_walk w ∙ a.same_walk w;
  reaches = λ w l t s. b.reaches w l t (a.reaches w l t s);
}

pub Grown-Alike :
    {m m' : Machine} {pml4 : ℕ} {place place' : Places}
    → Tree m pml4 place
    → Tree m' pml4 place'
    → ((t l q : ℕ) → place t ≡ some (l, q) → place' t ≡ some (l, q))
    → Kept m.physical_memory m'.physical_memory
    → ((w : ℕ) → Alike m.words m'.words place w)
    → Grown m m' pml4 place place'
Grown-Alike {m} {m'} {pml4} tree tree' extends kept alike = record {
  kept = kept;
  tree = tree';
  extends = extends;
  same_walk = λ w.
      walk-Alike tree m'.words w (alike w) 3 pml4 (tree.root ∙ ap (λ q. some (3, q)) (omega arith));
  reaches = λ w l t r. Reaches-Alike tree m'.words w (alike w) l t r;
}

pub written : (m : Machine) (t i e' x : ℕ) → x ≡ t + i * 8 → (put_entry m t i e').words x ≡ e'
unfolding put_entry
written m t i e' x h = ground (arith, h)

pub unwritten :
    (m : Machine) (t i e' x : ℕ) → x ≢ t + i * 8 → (put_entry m t i e').words x ≡ m.words x
unfolding put_entry
unwritten m t i e' x h = ground (arith, h)

-- A write at slot `i` of the table `t`.
module _ {m : Machine} {pml4 : ℕ} {place : Places} (tree : Tree m pml4 place) (t l q i e' : ℕ)
    (at : place t ≡ some (l, q)) (small : i < 512) where
  -- No other slot of a table is at that address.
  slot_apart :
      (t' l' q' i' : ℕ)
      → place t' ≡ some (l', q')
      → i' < 512
      → t' + i' * 8 ≡ t + i * 8
      → (t' ≡ t) × (i' ≡ i)
  slot_apart t' l' q' i' at' small' e = (
    omega (arith, tree.aligned t l q at, tree.aligned t' l' q' at'),
    omega (arith, tree.aligned t l q at, tree.aligned t' l' q' at'),
  )

  pub same_place :
      (t' l' q' i' : ℕ)
      → place t' ≡ some (l', q')
      → i' < 512
      → t' + i' * 8 ≡ t + i * 8
      → (l' ≡ l) × (q' ≡ q) × (i' ≡ i)
  same_place t' l' q' i' at' small' e =
      let apart = slot_apart t' l' q' i' at' small' e in
      let one : place t' ≡ place t = ap place apart.0 in (cc, cc, apart.1)

  pub Tree-put_entry :
      ((k : ℕ)
        → l ≡ suc k
        → has_bit e' present_bit ≡ true
        → has_bit e' page_size_bit ≡ false
        → place (get_table e') ≡ some (k, q * 512 + i))
      → ((k : ℕ) → l ≡ suc (suc k) → has_bit e' page_size_bit ≡ false)
      → Tree (put_entry m t i e') pml4 place
  Tree-put_entry good small_page = record {
    root = tree.root;
    not_null = tree.not_null;
    aligned = tree.aligned;
    in_use = λ t' l' q' x at' h. unfold put_entry in tree.in_use t' l' q' x at' h;
    child = λ t' k q' i' at' small' p n. elim (eq-or-ne (t' + i' * 8) (t + i * 8)) [
      | inl here ↦
          let new = written m t i e' (t' + i' * 8) here in
          let it = same_place t' (suc k) q' i' at' small' here in
          rw (new, it.1, it.2) (good k (sym it.0) (rw new at p) (rw new at n))
      | inr other ↦
          let old = unwritten m t i e' (t' + i' * 8) other in
          rw old (tree.child t' k q' i' at' small' (rw old at p) (rw old at n))
    ];
    no_large = λ t' k q' i' at' small'. elim (eq-or-ne (t' + i' * 8) (t + i * 8)) [
      | inl here ↦
          let new = written m t i e' (t' + i' * 8) here in
          let it = same_place t' (suc (suc k)) q' i' at' small' here in
          rw new (small_page k (sym it.0))
      | inr other ↦
          let old = unwritten m t i e' (t' + i' * 8) other in
          rw old (tree.no_large t' k q' i' at' small')
    ];
  }

  pub Alike-put_entry :
      (w : ℕ)
      → (q ≡ stretch (suc l) w
          → i ≡ slot l w
          → Similar l w (put_entry m t i e').words (m.words (t + i * 8)) e')
      → Alike m.words (put_entry m t i e').words place w
  Alike-put_entry w similar t' l' at' = elim (eq-or-ne (t' + slot l' w * 8) (t + i * 8)) [
    | inl here ↦
        let new = written m t i e' (t' + slot l' w * 8) here in
        let it = same_place t' l' (stretch (suc l') w) (slot l' w) at' (omega arith) here in
        let that =
          similar (sym it.1 ∙ ap (λ k. stretch (suc k) w) it.0)
            (sym it.2 ∙ ap (λ k. slot k w) it.0) in
        rw (new, here, it.0) that
    | inr other ↦ same (unwritten m t i e' (t' + slot l' w * 8) other)
  ]
