-- ===== src/Bits/Digit.antt =====
-- `&` and `|` of two words, one binary digit at a time.
use Prim.Native.Nat.{digits, bit_and-bitwise, bit_or-bitwise}
use ech_os.Base.{ℕ, zero, suc, ◌+◌, ◌*◌, ◌/◌, ◌%◌, ◌≤◌, min, max, bit_and, bit_or}
use ech_os.Base.{◌≡◌, refl, ◌∙◌, arith}

-- The recursion behind both operations needs fuel no larger than its first operand.
module _ (z : ℕ → ℕ) (op : ℕ → ℕ → ℕ) where
  enough :
      (fuel more a b : ℕ) → a ≤ fuel → fuel ≤ more → digits z op fuel a b ≡ digits z op more a b
  enough zero zero a b p q = refl
  enough zero (suc more) zero b p q = refl
  enough zero (suc more) (suc a) b p q = absurd (omega arith)
  enough (suc fuel) zero a b p q = absurd (omega arith)
  enough (suc fuel) (suc more) zero b p q = refl
  enough (suc fuel) (suc more) (suc a) b p q =
      rw (enough fuel more (suc a / 2) (b / 2) (omega arith) (omega arith))

  lowest :
      (a b : ℕ)
      → digits z op (suc a) (suc a) b
        ≡ digits z op (suc a / 2) (suc a / 2) (b / 2) * 2 + op (suc a % 2) (b % 2)
  lowest a b = omega (arith, enough (suc a / 2) a (suc a / 2) (b / 2) (omega arith) (omega arith))

pub zero-bit_and : (word : ℕ) → bit_and 0 word ≡ 0
zero-bit_and word = bit_and-bitwise 0 word

pub bit_and-digit : (x y : ℕ) → bit_and x y ≡ min (x % 2) (y % 2) + 2 * bit_and (x / 2) (y / 2)
bit_and-digit zero y = omega (arith, zero-bit_and y, zero-bit_and (y / 2))
bit_and-digit (suc x) y =
    bit_and-bitwise (suc x) y
    ∙ omega (arith, lowest (λ _. 0) min x y, bit_and-bitwise (suc x / 2) (y / 2))

pub bit_or-digit : (x y : ℕ) → bit_or x y ≡ max (x % 2) (y % 2) + 2 * bit_or (x / 2) (y / 2)
bit_or-digit zero y = omega (arith, bit_or-bitwise 0 y, bit_or-bitwise 0 (y / 2))
bit_or-digit (suc x) y =
    bit_or-bitwise (suc x) y
    ∙ omega (arith, lowest (λ t. t) max x y, bit_or-bitwise (suc x / 2) (y / 2))
