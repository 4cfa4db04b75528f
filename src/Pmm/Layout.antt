-- ===== src/Pmm/Layout.antt =====
-- The PMM by address: which addresses lie in a free frame, when the blocks are valid and disjoint.
use ech_os.Base.{ℕ, ◌+◌, ◌-◌, ◌*◌, ◌/◌, ◌≤◌, ◌<◌, ◌==◌, Bool, true, false, not}
use ech_os.Base.{ltb, leb, ◌&&◌, if◌then◌else◌, Bool-cases, ◌⊎◌, inl, inr, List, [], ◌∷◌}
use ech_os.Base.{Option, none, some, ◌≡◌, refl, arith}
use ech_os.Pmm.{Pmm, contains}
use ech_os.Pmm.Block.{PmBlock, frame_size}
use ech_os.Pmm.Usage.{mark}
use ech_os.Pmm.Valid.{IsValid, Region, region, block_used}

abbrev pub end_of : Region → ℕ
end_of r = r.address + r.frames_total * frame_size

abbrev pub inside : Region → ℕ → Bool
inside r x = leb r.address x && ltb x (end_of r)

abbrev pub frame_of : Region → ℕ → ℕ
frame_of r x = (x - r.address) / frame_size

abbrev pub layout : Pmm → List Region
layout [] = []
layout (b ∷ bs) = region b ∷ layout bs

abbrev pub AllValid : Pmm → Type 0
AllValid [] = Unit
AllValid (b ∷ bs) = IsValid b × AllValid bs

abbrev pub Apart : Region → List Region → Type 0
Apart r [] = Unit
Apart r (s ∷ rest) = ((end_of r ≤ s.address) ⊎ (end_of s ≤ r.address)) × Apart r rest

abbrev pub Disjoint : List Region → Type 0
Disjoint [] = Unit
Disjoint (r ∷ rest) = Apart r rest × Disjoint rest

-- Between calls every block is valid and no two blocks share an address.
pub record PmmIsValid (p : Pmm) : Type 0 where
  pub blocks_valid : AllValid p
  pub disjoint : Disjoint (layout p)

-- Whether `x` lies in a free frame.
unfoldable pub is_free : Pmm → ℕ → Bool
is_free [] x = false
is_free (b ∷ bs) x =
    if inside (region b) x then not (block_used b (frame_of (region b) x)) else is_free bs x

-- The free frames of all blocks.
unfoldable pub free_frames : Pmm → ℕ
free_frames [] = 0
free_frames (b ∷ bs) = b.frames_free + free_frames bs

-- `x` lies in the frame that begins at `address`.
abbrev pub in_frame : (address x : ℕ) → Bool
in_frame address x = leb address x && ltb x (address + frame_size)

abbrev pub base_in : Region → ℕ → Option ℕ
base_in r x = elim r.start [ none ↦ none | some _ ↦ some (r.address + frame_of r x * frame_size) ]

-- The start of the frame that holds `x`, if a block with a bitmap does.
unfoldable pub frame_base : List Region → ℕ → Option ℕ
frame_base [] x = none
frame_base (r ∷ rs) x = if inside r x then base_in r x else frame_base rs x

-- The test of `frame_free` does not wrap on a valid block.
pub contains-inside : (b : PmBlock) (x : ℕ) → IsValid b → contains b x ≡ inside (region b) x
contains-inside b x v = ground (arith, v.fits)

pub is_free-Apart :
    (r : Region) (bs : Pmm) (x : ℕ) → Apart r (layout bs) → inside r x ≡ true → is_free bs x ≡ false
unfolding is_free
is_free-Apart r [] x a h = refl
is_free-Apart r (b ∷ bs) x a h = ground (arith, is_free-Apart r bs x a.1 h)

-- Where frame `n` of the region is marked `v`, that shows at the addresses of that frame alone.
pub is_free-mark :
    (r : Region) (u : ℕ → Bool) (n : ℕ) (v later : Bool) (x : ℕ)
    → n < r.frames_total
    → (if inside r x then not (mark u n v (frame_of r x)) else later) ≡ (
        if in_frame (r.address + n * frame_size) x
        then not v
        else (if inside r x then not (u (frame_of r x)) else later))
is_free-mark r u n v later x h = elim (Bool-cases (n == frame_of r x)) [
  | inl here ↦ ground arith
  | inr apart ↦ ground arith
]

pub in_frame-inside :
    (r : Region) (n x : ℕ)
    → n < r.frames_total
    → in_frame (r.address + n * frame_size) x ≡ true
    → (inside r x ≡ true) × (frame_of r x ≡ n)
in_frame-inside r n x h e = (ground arith, ground arith)

pub PmmIsValid-cons :
    (b b' : PmBlock) (bs bs' : Pmm)
    → Apart (region b) (layout bs)
    → IsValid b'
    → PmmIsValid bs'
    → region b' ≡ region b
    → layout bs' ≡ layout bs
    → PmmIsValid (b' ∷ bs')
PmmIsValid-cons b b' bs bs' apart v vs e l = record {
  blocks_valid = (v, vs.blocks_valid);
  disjoint = (rw (e, l) apart, vs.disjoint);
}

pub PmmIsValid-tail : (b : PmBlock) (bs : Pmm) → PmmIsValid (b ∷ bs) → PmmIsValid bs
PmmIsValid-tail b bs v = record { blocks_valid = v.blocks_valid.1; disjoint = v.disjoint.1 }
