-- ===== src/Paging/Directory.antt =====
-- `directory_of` goes two levels down on the way to an address.
use ech_os.Base.{
  ◌>>=◌, ℕ, suc, ◌≢◌, ◌==◌, if◌then◌else◌, refl, arith, Bool-cases, inl, inr, Run, ok,
}
use ech_os.Pmm.{Pmm}
use ech_os.Pmm.Layout.{PmmIsValid, layout}
use ech_os.Paging.{Machine, next_table, directory_of}
use ech_os.Paging.Kept.{Kept, Starved-Kept}
use ech_os.Paging.Translate.{slot, index_of-slot}
use ech_os.Paging.Tree.{Places, Tree, at_root}
use ech_os.Paging.Frames.{AllFrames}
use ech_os.Paging.Grow.{Grown, Grown-trans}
use ech_os.Paging.NextTable.{NextTable}
use ech_os.Paging.NextTable.Step.{next_table-NextTable}

pub AllFrames-Kept : {p p' : Pmm} → Kept p p' → AllFrames (layout p) → AllFrames (layout p')
AllFrames-Kept k all = rw k.same_layout all

NextTable-Grown :
    {m n : Machine} {pml4 : ℕ} {place places : Places} {v l : ℕ} {r : Run (ℕ × Machine)}
    → Grown m n pml4 place places
    → NextTable n pml4 places v l r
    → NextTable m pml4 place v l r
NextTable-Grown {m} {n} g t = record {
  next = t.next;
  after = t.after;
  returns = t.returns;
  places = t.places;
  grown = Grown-trans g t.grown;
  reached = t.reached;
  why_null = λ z.
      Starved-Kept m.physical_memory n.physical_memory t.after.physical_memory g.kept
        (t.why_null z);
}

-- One more level, unless the last one gave NULL.
step :
    (m : Machine) (pml4 : ℕ) (place : Places) (v l flags : ℕ) {r : Run (ℕ × Machine)}
    → AllFrames (layout m.physical_memory)
    → l ≢ 0
    → NextTable m pml4 place v (suc l) r
    → NextTable m pml4 place v l
        (do (t, m') ← r; if t == 0 then ok (0, m') else next_table m' t (slot (suc l) v) flags)
step m pml4 place v l flags frames above t =
    let valid = t.grown.kept.valid in
    rw t.returns (elim (Bool-cases (t.next == 0)) [
      | inl e ↦ rw e (record {
        next = 0;
        after = t.after;
        returns = refl;
        places = t.places;
        grown = t.grown;
        reached = λ ne. absurd (ne refl);
        why_null = λ z. t.why_null (ground arith);
      })
      | inr e ↦ rw e (
          NextTable-Grown t.grown (
            next_table-NextTable t.after pml4 t.places v l t.next flags t.grown.tree valid
              (t.reached (ground arith)) (AllFrames-Kept t.grown.kept frames)
              (λ z. absurd (above z))))
    ])

pub directory_of-NextTable :
    (m : Machine) (pml4 : ℕ) (place : Places) (v flags : ℕ)
    → Tree m pml4 place
    → PmmIsValid m.physical_memory
    → AllFrames (layout m.physical_memory)
    → NextTable m pml4 place v 1 (directory_of m pml4 v flags)
unfolding directory_of
directory_of-NextTable m pml4 place v flags tree valid frames =
    rw ((index_of-slot v).0, (index_of-slot v).1)
      (step m pml4 place v 1 flags frames (λ z. cc)
        (next_table-NextTable m pml4 place v 2 pml4 flags tree valid (at_root 3 pml4 refl refl)
          frames (λ z. cc)))
