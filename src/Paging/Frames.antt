-- ===== src/Paging/Frames.antt =====
-- The frames that can hold a page table: aligned, and below the addresses that an entry has room for.
use ech_os.Base.{
  [], ℕ, ◌+◌, ◌*◌, ◌%◌, ◌^◌, ◌≤◌, ◌<◌, List, ◌∷◌, none, some, true, Bool-cases, inl, inr,
}
use ech_os.Base.{◌≡◌, arith, Option}
use ech_os.Pmm.{Pmm}
use ech_os.Pmm.Block.{frame_size}
use ech_os.Pmm.Valid.{Region}
use ech_os.Pmm.Layout.{layout, end_of, inside, frame_of, frame_base}
use ech_os.Pmm.FrameAllocate.{Taken}

-- Regions of whole frames, which end below 2^52.
abbrev pub AllFrames : List Region → Type 0
AllFrames [] = Unit
AllFrames (r ∷ rs) = (r.address % frame_size ≡ 0) × (end_of r ≤ 2 ^ 52) × AllFrames rs

abbrev IsFrame : ℕ → Type 0
IsFrame f = (f % 4096 ≡ 0) × (f < 2 ^ 52)

base_in-IsFrame :
    (r : Region) (start : Option ℕ) (x f : ℕ)
    → r.address % frame_size ≡ 0
    → end_of r ≤ 2 ^ 52
    → inside r x ≡ true
    → elim start [ none ↦ none | some _ ↦ some (r.address + frame_of r x * frame_size) ] ≡ some f
    → IsFrame f
base_in-IsFrame r none x f a low i e = absurd (cc)
base_in-IsFrame r (some s) x f a low i e =
    let at : r.address + frame_of r x * frame_size ≡ f = cc in
    (omega (arith, at), ground (arith, at))

frame_base-IsFrame :
    (rs : List Region) (x f : ℕ) → AllFrames rs → frame_base rs x ≡ some f → IsFrame f
unfolding frame_base
frame_base-IsFrame [] x f all e = absurd (cc)
frame_base-IsFrame (r ∷ rs) x f all e = elim (Bool-cases (inside r x)) [
  | inl i ↦ base_in-IsFrame r r.start x f all.0 all.1 i (rw i at e)
  | inr o ↦ frame_base-IsFrame rs x f all.2 (rw o at e)
]

pub Taken-IsFrame :
    {p p' : Pmm} {f : ℕ} → AllFrames (layout p) → Taken p f p' → (f % 4096 ≡ 0) × (f < 2 ^ 52)
Taken-IsFrame {p} {p'} {f} all t = frame_base-IsFrame (layout p) f f all (t.base f (ground arith))
