-- ===== src/Bits.antt =====
-- The bits of a machine word as a list of Booleans, lowest first, and what `|`, `&`, `~` and `>>`
-- with a single bit do to that list.
mod Digit
pub mod Fields
pub mod Logic
use Digit.{zero-bit_and, bit_and-digit, bit_or-digit}
use native.Mathlib.Nat.{pow-suc, div-add-mod, one-le-pow, pow-le-pow_right, div-div-eq-div-mul}
use ech_os.Base.{ℕ, zero, suc, ◌+◌, ◌-◌, ◌*◌, ◌/◌, ◌%◌, ◌^◌, ◌≤◌, ◌<◌, bit_and, bit_or}
use ech_os.Base.{
  ◌≡◌, refl, sym, ap, ap₂, ◌∙◌, arith, leb, ◌==◌, if◌then◌else◌, Bool, true, false, not,
}
use ech_os.Base.{List, [], ◌∷◌, length, get_or, set, drop}

abbrev pub odd : ℕ → Bool
odd w = w % 2 == 1

-- The lowest `k` bits of `w`.
unfoldable pub bits : ℕ → ℕ → List Bool
bits zero w = []
bits (suc k) w = odd w ∷ bits k (w / 2)

pub length-bits : (k w : ℕ) → length (bits k w) ≡ k
unfolding bits
length-bits zero w = refl
length-bits (suc k) w = ap suc (length-bits k (w / 2))

two_pow-suc : (b : ℕ) → 2 ^ suc b ≡ 2 * 2 ^ b
two_pow-suc b = omega (arith, pow-suc 2 b)

-- Halving reaches 0 within `rounds` halvings.
or_nothing : (word rounds : ℕ) → word ≤ rounds → bit_or word 0 ≡ word
or_nothing zero rounds h = refl
or_nothing (suc w) zero h = absurd (omega arith)
or_nothing (suc w) (suc rounds) h =
    bit_or-digit (suc w) 0 ∙ omega (arith, or_nothing (suc w / 2) rounds (omega arith))

pub bit_or-zero : (word : ℕ) → bit_or word 0 ≡ word
bit_or-zero word = or_nothing word word (omega arith)

-- `&` keeps no more than either side has.
and_bounds :
    (word rounds mask : ℕ) → word ≤ rounds → (bit_and word mask ≤ word) × (bit_and word mask ≤ mask)
and_bounds zero rounds mask h = omega (arith, zero-bit_and mask)
and_bounds (suc w) zero mask h = absurd (omega arith)
and_bounds (suc w) (suc rounds) mask h =
    omega
      (arith, bit_and-digit (suc w) mask, and_bounds (suc w / 2) rounds (mask / 2) (omega arith))

pub bit_and-le : (word mask : ℕ) → bit_and word mask ≤ word
bit_and-le word mask = (and_bounds word word mask (omega arith)).0

pub bit_and-zero : (word : ℕ) → bit_and word 0 ≡ 0
bit_and-zero word = omega (arith, and_bounds word word 0 (omega arith))

pub bit_and-one : (a : ℕ) → bit_and a 1 ≡ a % 2
bit_and-one a = omega (arith, bit_and-digit a 1, bit_and-zero (a / 2))

-- `w | (1 << b)` sets bit `b`.
pub bits-bit_or : (k b w : ℕ) → b < k → bits k (bit_or w (2 ^ b)) ≡ set (bits k w) b true
unfolding bits
bits-bit_or zero b w h = absurd (omega arith)
bits-bit_or (suc k) zero w h =
    ap₂ ◌∷◌ (ground (arith, bit_or-digit w 1))
      (ap (bits k) (omega (arith, bit_or-digit w 1, bit_or-zero (w / 2))))
bits-bit_or (suc k) (suc b) w h =
    ap₂ ◌∷◌ (ground (arith, bit_or-digit w (2 ^ suc b), two_pow-suc b))
      (ap (bits k) halves ∙ bits-bit_or k b (w / 2) (omega arith))
  where
    half : 2 ^ suc b / 2 ≡ 2 ^ b
    half = omega (arith, two_pow-suc b)

    halves : bit_or w (2 ^ suc b) / 2 ≡ bit_or (w / 2) (2 ^ b)
    halves = rw (← half) (omega (arith, bit_or-digit w (2 ^ suc b)))

pub pow-lt : (b k : ℕ) → b < k → 2 ^ b < 2 ^ k
pow-lt b k h = omega (
  arith,
  two_pow-suc b,
  one-le-pow b 2,
  pow-le-pow_right {n = 2} (omega arith) {i = suc b} {j = k} h,
)

bits-bit_and_mask : (k w : ℕ) → bits k (bit_and w (2 ^ k - 1)) ≡ bits k w
unfolding bits
bits-bit_and_mask zero w = refl
bits-bit_and_mask (suc k) w =
    ap₂ ◌∷◌ (ground (arith, bit_and-digit w (2 ^ suc k - 1), two_pow-suc k, one-le-pow k 2))
      (ap (bits k) halves ∙ bits-bit_and_mask k (w / 2))
  where
    half : (2 ^ suc k - 1) / 2 ≡ 2 ^ k - 1
    half = omega (arith, two_pow-suc k)

    halves : bit_and w (2 ^ suc k - 1) / 2 ≡ bit_and (w / 2) (2 ^ k - 1)
    halves = rw (← half) (omega (arith, bit_and-digit w (2 ^ suc k - 1)))

-- `w & ~(1 << b)` clears bit `b`, at every width above `b`.
pub bits-bit_and :
    (k b w : ℕ) → b < k → bits k (bit_and w (2 ^ k - 1 - 2 ^ b)) ≡ set (bits k w) b false
unfolding bits
bits-bit_and zero b w h = absurd (omega arith)
bits-bit_and (suc k) zero w h =
    ap₂ ◌∷◌ (ground (arith, bit_and-digit w (2 ^ suc k - 1 - 1), two_pow-suc k, one-le-pow k 2))
      (ap (bits k) halves ∙ bits-bit_and_mask k (w / 2))
  where
    half : (2 ^ suc k - 1 - 1) / 2 ≡ 2 ^ k - 1
    half = omega (arith, two_pow-suc k)

    halves : bit_and w (2 ^ suc k - 1 - 1) / 2 ≡ bit_and (w / 2) (2 ^ k - 1)
    halves = rw (← half) (omega (arith, bit_and-digit w (2 ^ suc k - 1 - 1)))
bits-bit_and (suc k) (suc b) w h =
    ap₂ ◌∷◌
      (ground (
        arith,
        bit_and-digit w (2 ^ suc k - 1 - 2 ^ suc b),
        two_pow-suc k,
        two_pow-suc b,
        pow-lt b k (omega arith),
      ))
      (ap (bits k) halves ∙ bits-bit_and k b (w / 2) (omega arith))
  where
    half : (2 ^ suc k - 1 - 2 ^ suc b) / 2 ≡ 2 ^ k - 1 - 2 ^ b
    half = omega (arith, two_pow-suc k, two_pow-suc b)

    halves : bit_and w (2 ^ suc k - 1 - 2 ^ suc b) / 2 ≡ bit_and (w / 2) (2 ^ k - 1 - 2 ^ b)
    halves = rw (← half) (omega (arith, bit_and-digit w (2 ^ suc k - 1 - 2 ^ suc b)))

mod_two_mul : (p w : ℕ) → w % (2 * p) ≡ w / 2 % p * 2 + w % 2
mod_two_mul p w = omega (
  arith,
  div-add-mod w (2 * p),
  div-add-mod (w / 2) p,
  ap (λ t. p * t) (div-div-eq-div-mul w 2 p),
)

-- `w & (2 ^ k - 1)` is the remainder by `2 ^ k`.
pub bit_and-mask : (k w : ℕ) → bit_and w (2 ^ k - 1) ≡ w % 2 ^ k
bit_and-mask zero w = omega (arith, bit_and-zero w)
bit_and-mask (suc k) w = omega (
  arith,
  bit_and-digit w (2 ^ suc k - 1),
  half,
  ap (bit_and (w / 2)) half,
  bit_and-mask k (w / 2),
  mod_two_mul (2 ^ k) w,
  two_pow-suc k,
  pos,
  ap (λ t. w % t) (two_pow-suc k),
)
  where
    pos : 1 ≤ 2 ^ k
    pos = one-le-pow k 2 (omega arith)

    half : (2 ^ suc k - 1) / 2 ≡ 2 ^ k - 1
    half = omega (arith, two_pow-suc k)

-- A word below `2 ^ k` is determined by its lowest `k` bits.
pub bits-injective : (k v w : ℕ) → v < 2 ^ k → w < 2 ^ k → bits k v ≡ bits k w → v ≡ w
unfolding bits
bits-injective zero v w p q e = omega arith
bits-injective (suc k) v w p q e =
    let low : odd v ≡ odd w = ap (λ l. get_or l 0 true) e in
    let high : v / 2 ≡ w / 2 =
      bits-injective k (v / 2) (w / 2) (omega (arith, two_pow-suc k)) (omega (arith, two_pow-suc k))
        (ap (drop 1) e) in
    ground arith

pub bit_or-lt : (k b w : ℕ) → b < k → w < 2 ^ k → bit_or w (2 ^ b) < 2 ^ k
bit_or-lt zero b w h p = absurd (omega arith)
bit_or-lt (suc k) zero w h p = omega (arith, bit_or-digit w 1, bit_or-zero (w / 2), two_pow-suc k)
bit_or-lt (suc k) (suc b) w h p = omega (
  arith,
  bit_or-digit w (2 ^ suc b),
  ap (bit_or (w / 2)) half,
  bit_or-lt k b (w / 2) (omega arith) (omega (arith, two_pow-suc k)),
  two_pow-suc k,
)
  where
    half : 2 ^ suc b / 2 ≡ 2 ^ b
    half = omega (arith, two_pow-suc b)

-- The test `w & (1 << b)`.
pub bit_and-eq-zero :
    (k b w : ℕ) → b < k → (bit_and w (2 ^ b) == 0) ≡ not (get_or (bits k w) b true)
unfolding bits
bit_and-eq-zero zero b w h = absurd (omega arith)
bit_and-eq-zero (suc k) zero w h = ground (arith, bit_and-one w)
bit_and-eq-zero (suc k) (suc b) w h = doubled ∙ bit_and-eq-zero k b (w / 2) (omega arith)
  where
    half : 2 ^ suc b / 2 ≡ 2 ^ b
    half = omega (arith, two_pow-suc b)

    doubled : (bit_and w (2 ^ suc b) == 0) ≡ (bit_and (w / 2) (2 ^ b) == 0)
    doubled = ground (arith, bit_and-digit w (2 ^ suc b), ap (bit_and (w / 2)) half, two_pow-suc b)

-- The test `(w >> b) & 1`.
pub shift_and-one :
    (k b w : ℕ) → b < k → (bit_and (w / 2 ^ b) 1 == 0) ≡ not (get_or (bits k w) b true)
unfolding bits
shift_and-one zero b w h = absurd (omega arith)
shift_and-one (suc k) zero w h = ground (arith, bit_and-one (w / 1))
shift_and-one (suc k) (suc b) w h =
    ap (λ t. bit_and t 1 == 0) halved ∙ shift_and-one k b (w / 2) (omega arith)
  where
    halved : w / 2 ^ suc b ≡ w / 2 / 2 ^ b
    halved = ap (λ t. w / t) (two_pow-suc b) ∙ sym (div-div-eq-div-mul w 2 (2 ^ b))

pub bits-full : (k b : ℕ) → get_or (bits k (2 ^ k - 1)) b true ≡ true
unfolding bits
bits-full zero b = refl
bits-full (suc k) zero = ground (arith, two_pow-suc k, one-le-pow k 2)
bits-full (suc k) (suc b) = ap (λ t. get_or (bits k t) b true) half ∙ bits-full k b
  where
    half : (2 ^ suc k - 1) / 2 ≡ 2 ^ k - 1
    half = omega (arith, two_pow-suc k)

-- `~0 << r` has the bits from `r` on.
pub bits-high : (k r j : ℕ) → r ≤ k → get_or (bits k (2 ^ k - 2 ^ r)) j true ≡ leb r j
unfolding bits
bits-high zero zero j h = ground arith
bits-high zero (suc r) j h = absurd (omega arith)
bits-high (suc k) zero j h = bits-full (suc k) j ∙ ground arith
bits-high (suc k) (suc r) zero h = ground (arith, two_pow-suc k, two_pow-suc r)
bits-high (suc k) (suc r) (suc j) h =
    ap (λ t. get_or (bits k t) j true) half ∙ bits-high k r j (omega arith) ∙ ground arith
  where
    half : (2 ^ suc k - 2 ^ suc r) / 2 ≡ 2 ^ k - 2 ^ r
    half = omega (arith, two_pow-suc k, two_pow-suc r)
