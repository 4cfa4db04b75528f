-- ===== src/Pmm/RoundTrip.antt =====
-- A valid PMM is determined by its regions and its free frames, so freeing a frame that was just
-- allocated gives the PMM back, word for word.
use ech_os.Bits.{length-bits, bits-injective}
use ech_os.Base.{ℕ, ◌+◌, ◌*◌, ◌^◌, ◌<◌, Bool, true, false, not}
use ech_os.Base.{if◌then◌else◌, Bool-cases, lt-or-le, inl, inr, List, [], ◌∷◌}
use ech_os.Base.{length, get_or_ext, all_ones}
use ech_os.Base.{Run, ok, ◌≡◌, ◌≢◌, refl, sym, ap, ap₂, ◌∙◌, arith, subst, Option, none, some}
use mathlib.Core.Option.{some-injective}
use mathlib.Core.Path.{subst₂}
use ech_os.Pmm.{Pmm, frame_allocate, frame_free}
use ech_os.Pmm.Block.{PmBlock, Bitmap, frame_size, no_frame}
use ech_os.Pmm.Usage.{word_at, used, used-at, count_free-ext}
use ech_os.Pmm.Valid.{
  IsValid, MapIsValid, BitmapIsValid, Region, region, block_used, used_in, start_of,
}
use ech_os.Pmm.Layout.{frame_base, Apart, PmmIsValid, PmmIsValid-tail, layout, inside, frame_of}
use ech_os.Pmm.Layout.{in_frame, is_free, is_free-Apart}
use ech_os.Pmm.FrameAllocate.{Taken, Allocation, none_free, frame_allocate_lem}
use ech_os.Pmm.FrameFree.{Freed, Release, foreign, frame_free_lem}

words_ext :
    (xs ys : List ℕ)
    → length xs ≡ length ys
    → ((i : ℕ) → word_at xs i < 2 ^ 64)
    → ((i : ℕ) → word_at ys i < 2 ^ 64)
    → ((n : ℕ) → used xs n ≡ used ys n)
    → xs ≡ ys
words_ext xs ys e hx hy same = get_or_ext all_ones xs ys e λ i p.
    bits-injective 64 (word_at xs i) (word_at ys i) (hx i) (hy i) (
      get_or_ext true _ _ (length-bits 64 (word_at xs i) ∙ sym (length-bits 64 (word_at ys i)))
        λ j q.
          let below : j < 64 = rw length-bits at q in
          sym (used-at xs i j below) ∙ same (i * 64 + j) ∙ used-at ys i j below)

Bitmap_ext :
    (m k : Bitmap) (total f g : ℕ)
    → m.start ≡ k.start
    → BitmapIsValid m total f
    → BitmapIsValid k total g
    → ((n : ℕ) → n < total → used m.words n ≡ used k.words n)
    → (m ≡ k) × (f ≡ g)
Bitmap_ext m k total f g e vm vk same = (
  λ i. record {
    start = e i;
    words = words_ext m.words k.words (vm.sized ∙ sym vk.sized) vm.words_fit vk.words_fit every i;
  },
  vm.counted ∙ count_free-ext total _ _ same ∙ sym vk.counted,
)
  where
    every : (n : ℕ) → used m.words n ≡ used k.words n
    every n = elim (lt-or-le n total) [
      | inl low ↦ same n low
      | inr high ↦ vm.tail_used n high ∙ sym (vk.tail_used n high)
    ]

map_ext :
    (m k : Option Bitmap) (total f g : ℕ)
    → start_of m ≡ start_of k
    → MapIsValid m total f
    → MapIsValid k total g
    → ((n : ℕ) → n < total → used_in m n ≡ used_in k n)
    → (m ≡ k) × (f ≡ g)
map_ext none none total f g e vm vk same = (refl, vm ∙ sym vk)
map_ext none (some k) total f g e vm vk same = cc
map_ext (some m) none total f g e vm vk same = cc
map_ext (some m) (some k) total f g e vm vk same =
    let starts : m.start ≡ k.start = cc in
    let both = Bitmap_ext m k total f g starts vm vk same in (ap some both.0, both.1)

block_ext :
    (b c : PmBlock)
    → region b ≡ region c
    → IsValid b
    → IsValid c
    → ((n : ℕ) → n < b.frames_total → block_used b n ≡ block_used c n)
    → b ≡ c
block_ext b c e vb vc same =
    let total : b.frames_total ≡ c.frames_total = ap (λ (r : Region). r.frames_total) e in
    let both =
      map_ext b.bitmap c.bitmap b.frames_total b.frames_free c.frames_free
        (ap (λ (r : Region). r.start) e) vb.map_valid
        (subst (λ t. MapIsValid c.bitmap t c.frames_free) (sym total) vc.map_valid) same in
    λ i. record {
      address = (e i).address;
      frames_total = (e i).frames_total;
      frames_free = both.1 i;
      bitmap = both.0 i;
      type = (e i).type;
      attributes = (e i).attributes;
    }

not-injective : (a b : Bool) → not a ≡ not b → a ≡ b
not-injective a b h = ground arith

is_free-head :
    (r : Region) (b : PmBlock) (bs : Pmm) (n : ℕ)
    → region b ≡ r
    → n < r.frames_total
    → is_free (b ∷ bs) (r.address + n * frame_size) ≡ not (block_used b n)
unfolding is_free
is_free-head r b bs n e h =
    let here : inside r (r.address + n * frame_size) ≡ true = ground arith in
    let at : frame_of r (r.address + n * frame_size) ≡ n = omega arith in
    ap
      (λ t.
        if inside t (r.address + n * frame_size)
        then not (block_used b (frame_of t (r.address + n * frame_size)))
        else is_free bs (r.address + n * frame_size))
      e
    ∙ rw (here, at) refl

is_free-tail :
    (r : Region) (b : PmBlock) (bs : Pmm) (x : ℕ)
    → region b ≡ r
    → Apart r (layout bs)
    → is_free bs x ≡ (if inside r x then false else is_free (b ∷ bs) x)
unfolding is_free
is_free-tail r b bs x e apart = elim (Bool-cases (inside r x)) [
  | inl here ↦ rw here (is_free-Apart r bs x apart here)
  | inr there ↦ rw there (rw (ap (λ t. inside t x) e ∙ there) refl)
]

-- Two valid PMMs with the same regions and the same free addresses are the same, down to the words
-- of their bitmaps and their counts.
pub Pmm_ext :
    (p q : Pmm)
    → PmmIsValid p
    → PmmIsValid q
    → layout p ≡ layout q
    → ((x : ℕ) → is_free p x ≡ is_free q x)
    → p ≡ q
Pmm_ext [] [] v w e same = refl
Pmm_ext [] (c ∷ cs) v w e same = cc
Pmm_ext (b ∷ bs) [] v w e same = cc
Pmm_ext (b ∷ bs) (c ∷ cs) v w e same =
    let heads : region b ≡ region c = cc in
    let tails : layout bs ≡ layout cs = cc in
    ap₂ ◌∷◌
      (block_ext b c heads v.blocks_valid.0 w.blocks_valid.0 λ n h. not-injective _ _ (
        sym (is_free-head (region b) b bs n refl h)
        ∙ same (b.address + n * frame_size)
        ∙ is_free-head (region b) c cs n (sym heads) h))
      (Pmm_ext bs cs (PmmIsValid-tail b bs v) (PmmIsValid-tail c cs w) tails λ x.
        is_free-tail (region b) b bs x refl v.disjoint.0
        ∙ ap (λ t. if inside (region b) x then false else t) (same x)
        ∙ sym (is_free-tail (region b) c cs x (sym heads) (rw heads w.disjoint.0)))

undo :
    (p p' p'' : Pmm) (address x base : ℕ)
    → PmmIsValid p
    → Taken p address p'
    → in_frame address x ≡ true
    → frame_base (layout p') x ≡ some base
    → Freed p' x base p''
    → p'' ≡ p
undo p p' p'' address x base v t h e f =
    let same : base ≡ address =
      some-injective _ _ (sym e ∙ ap (λ l. frame_base l x) t.same_layout ∙ t.base x h) in
    Pmm_ext p'' p f.valid v (f.same_layout ∙ t.same_layout) λ y.
      f.now y
      ∙ ap (λ a. if in_frame a y then true else is_free p' y) same
      ∙ ground (arith, t.now y, t.was_free y)

Release-undo :
    (p p' : Pmm) (address x : ℕ) {r : Run Pmm}
    → PmmIsValid p
    → Taken p address p'
    → in_frame address x ≡ true
    → Release p' x r
    → r ≡ ok p
Release-undo p p' address x v t h (foreign e _) =
    let held = ap (λ l. frame_base l x) t.same_layout ∙ t.base x h in cc
Release-undo p p' address x v t h (Release.frame base p'' e f r) =
    r ∙ ap ok (undo p p' p'' address x base v t h e f)

Allocation-undo :
    (p : Pmm) (address : ℕ) (p' : Pmm) (x : ℕ) {r : Run (ℕ × Pmm)}
    → PmmIsValid p
    → r ≡ ok (address, p')
    → address ≢ no_frame
    → in_frame address x ≡ true
    → Allocation p r
    → frame_free p' x ≡ ok p
Allocation-undo p address p' x v e real h (none_free z g) = absurd (real (cc))
Allocation-undo p address p' x v e real h (Allocation.frame a q t g) =
    let same_address : a ≡ address = cc in
    let same_pmm : q ≡ p' = cc in
    let taken = subst₂ (Taken p) same_address same_pmm t in
    Release-undo p p' address x v taken h (frame_free_lem p' x taken.valid)

-- Freeing any address of a frame that an allocation took from a valid PMM gives that PMM back,
-- word for word.
pub frame_free-frame_allocate :
    (p : Pmm) (address : ℕ) (p' : Pmm) (x : ℕ)
    → PmmIsValid p
    → frame_allocate p ≡ ok (address, p')
    → address ≢ no_frame
    → in_frame address x ≡ true
    → frame_free p' x ≡ ok p
frame_free-frame_allocate p address p' x v e real h =
    Allocation-undo p address p' x v e real h (frame_allocate_lem p v)
