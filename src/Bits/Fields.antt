-- ===== src/Bits/Fields.antt =====
-- `|` of a value whose low bits are clear and one that fits them is a sum.
use native.Mathlib.Nat.{pow-suc}
use ech_os.Bits.Digit.{bit_or-digit}
use ech_os.Base.{ℕ, zero, suc, ◌+◌, ◌*◌, ◌/◌, ◌^◌, ◌<◌, bit_or, ◌≡◌, ap, ◌∙◌, arith}
use ech_os.Bits.{bit_or-zero}

shifted : (k q : ℕ) → q * 2 ^ suc k ≡ 2 * (q * 2 ^ k)
shifted k q = omega (arith, ap (λ t. q * t) (pow-suc 2 k))

pub bit_or-sum : (k q low : ℕ) → low < 2 ^ k → bit_or (q * 2 ^ k) low ≡ q * 2 ^ k + low
bit_or-sum zero q low h =
    let e : low ≡ 0 = omega arith in
    let one : q * 2 ^ 0 ≡ q = omega arith in rw (e, one) (bit_or-zero q ∙ omega arith)
bit_or-sum (suc k) q low h =
    bit_or-digit (q * 2 ^ suc k) low
    ∙ omega (
      arith,
      shifted k q,
      pow-suc 2 k,
      ap (λ t. bit_or t (low / 2)) half,
      bit_or-sum k q (low / 2) (omega (arith, pow-suc 2 k)),
    )
  where
    half : q * 2 ^ suc k / 2 ≡ q * 2 ^ k
    half = omega (arith, shifted k q)
