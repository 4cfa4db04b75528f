-- ===== src/Bits/Logic.antt =====
-- Laws of `&` and `|` on whole words.
use ech_os.Bits.Digit.{zero-bit_and, bit_and-digit, bit_or-digit}
use native.Mathlib.Nat.{pow-suc, div-div-eq-div-mul}
use ech_os.Base.{ℕ, zero, suc, ◌+◌, ◌*◌, ◌/◌, ◌%◌, ◌^◌, ◌≤◌, min, max, bit_and, bit_or}
use ech_os.Base.{◌≡◌, refl, sym, ap, ap₂, ◌∙◌, arith}

and_low : (x y : ℕ) → bit_and x y % 2 ≡ min (x % 2) (y % 2)
and_low x y = omega (arith, bit_and-digit x y)

and_half : (x y : ℕ) → bit_and x y / 2 ≡ bit_and (x / 2) (y / 2)
and_half x y = omega (arith, bit_and-digit x y)

or_low : (x y : ℕ) → bit_or x y % 2 ≡ max (x % 2) (y % 2)
or_low x y = omega (arith, bit_or-digit x y)

or_half : (x y : ℕ) → bit_or x y / 2 ≡ bit_or (x / 2) (y / 2)
or_half x y = omega (arith, bit_or-digit x y)

-- Two words are equal if their lowest bits are and the rest is.
by_half : (a b : ℕ) → a % 2 ≡ b % 2 → a / 2 ≡ b / 2 → a ≡ b
by_half a b e f = omega arith

bit_and-bit_or_from :
    (n x y z : ℕ) → x ≤ n → y ≤ n → bit_and (bit_or x y) z ≡ bit_or (bit_and x z) (bit_and y z)
bit_and-bit_or_from zero x y z p q =
    let x0 : x ≡ 0 = omega arith in let y0 : y ≡ 0 = omega arith in rw (x0, y0, zero-bit_and z) refl
bit_and-bit_or_from (suc n) x y z p q =
    by_half (bit_and (bit_or x y) z) (bit_or (bit_and x z) (bit_and y z))
      (omega (
        arith,
        and_low (bit_or x y) z,
        or_low x y,
        or_low (bit_and x z) (bit_and y z),
        and_low x z,
        and_low y z,
      ))
      (and_half (bit_or x y) z
        ∙ ap (λ t. bit_and t (z / 2)) (or_half x y)
        ∙ bit_and-bit_or_from n (x / 2) (y / 2) (z / 2) (omega arith) (omega arith)
        ∙ ap₂ bit_or (sym (and_half x z)) (sym (and_half y z))
        ∙ sym (or_half (bit_and x z) (bit_and y z)))

-- `&` distributes over `|`.
pub bit_and-bit_or : (x y z : ℕ) → bit_and (bit_or x y) z ≡ bit_or (bit_and x z) (bit_and y z)
bit_and-bit_or x y z = bit_and-bit_or_from (x + y) x y z (omega arith) (omega arith)

and_assoc_from : (n x y z : ℕ) → x ≤ n → bit_and (bit_and x y) z ≡ bit_and x (bit_and y z)
and_assoc_from zero x y z p =
    let x0 : x ≡ 0 = omega arith in
    rw (x0, zero-bit_and y, zero-bit_and z, zero-bit_and (bit_and y z)) refl
and_assoc_from (suc n) x y z p =
    by_half (bit_and (bit_and x y) z) (bit_and x (bit_and y z))
      (omega (arith, and_low (bit_and x y) z, and_low x y, and_low x (bit_and y z), and_low y z))
      (and_half (bit_and x y) z
        ∙ ap (λ t. bit_and t (z / 2)) (and_half x y)
        ∙ and_assoc_from n (x / 2) (y / 2) (z / 2) (omega arith)
        ∙ ap (bit_and (x / 2)) (sym (and_half y z))
        ∙ sym (and_half x (bit_and y z)))

pub bit_and_assoc : (x y z : ℕ) → bit_and (bit_and x y) z ≡ bit_and x (bit_and y z)
bit_and_assoc x y z = and_assoc_from x x y z (omega arith)

le_or_from : (n x y : ℕ) → y ≤ n → y ≤ bit_or x y
le_or_from zero x y p = omega arith
le_or_from (suc n) x y p =
    omega (arith, or_low x y, or_half x y, le_or_from n (x / 2) (y / 2) (omega arith))

-- `|` keeps every bit of its right side.
pub le-bit_or : (x y : ℕ) → y ≤ bit_or x y
le-bit_or x y = le_or_from y x y (omega arith)

and_even : (w z : ℕ) → bit_and w (2 * z) ≡ 2 * bit_and (w / 2) z
and_even w z =
    let half : 2 * z / 2 ≡ z = omega arith in
    omega (arith, bit_and-digit w (2 * z), ap (bit_and (w / 2)) half)

-- A mask that is a multiple of a power of two drops the bits below.
pub bit_and-times : (k w z : ℕ) → bit_and w (2 ^ k * z) ≡ 2 ^ k * bit_and (w / 2 ^ k) z
bit_and-times zero w z =
    let one : 1 * z ≡ z = omega arith in
    let all : w / 1 ≡ w = omega arith in rw (one, all) (omega arith)
bit_and-times (suc k) w z =
    let mask : 2 ^ suc k * z ≡ 2 * (2 ^ k * z) = rw (pow-suc 2 k) (grind arith) in
    let shifted : w / 2 / 2 ^ k ≡ w / 2 ^ suc k =
      div-div-eq-div-mul w 2 (2 ^ k) ∙ ap (λ t. w / t) (omega (arith, pow-suc 2 k)) in
    let times : 2 * (2 ^ k * bit_and (w / 2 ^ suc k) z) ≡ 2 ^ suc k * bit_and (w / 2 ^ suc k) z =
      rw (pow-suc 2 k) (grind arith) in
    rw mask (
      and_even w (2 ^ k * z)
      ∙ ap (λ t. 2 * t) (bit_and-times k (w / 2) z)
      ∙ ap (λ t. 2 * (2 ^ k * bit_and t z)) shifted
      ∙ times)
