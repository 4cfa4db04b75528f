-- ===== src/Strings/Itoa.antt =====
-- lib/string/itoa.c.
pub mod Reverse
pub mod Digits
pub mod Decimal
use ech_os.Base.{
  ℕ, zero, suc, ◌+◌, ◌-◌, ◌*◌, ◌/◌, ◌%◌, ◌^◌, ◌==◌, if◌then◌else◌, Bool, true, false, ◌&&◌, ◌||◌,
  not,
}
use ech_os.Base.{
  List, [], ◌∷◌, length, replicate, Run, ok, fault, ◌>>=◌, ℤ, pos, negsuc, magnitude, u8, sub64,
}
use ech_os.Strings.{load, store, strlen, strcpy}

-- The loop of `reverse_string`, with `left` bytes to go.
unfoldable pub reverse_loop : (left c1 c2 : ℕ) → (temp s : List ℕ) → Run (List ℕ)
unfolding load store
reverse_loop zero c1 c2 temp s = ok s
reverse_loop (suc left) c1 c2 temp s = do
  b ← load temp c2
  s' ← store s c1 b
  reverse_loop left (c1 + 1) (sub64 c2 1) temp s'

-- `temp` has as many bytes as the string has characters, and `behind` bytes that nothing else uses
-- follow it on the stack: the end of the string goes there. The length of an array must not be 0.
unfoldable pub reverse_string : (behind : ℕ) → (s : List ℕ) → Run (List ℕ)
unfolding strlen strcpy reverse_loop
reverse_string behind s = do
  n ← strlen s
  if n == 0
      then fault
      else (do temp ← strcpy (replicate (n + behind) 0) s; reverse_loop n 0 (n - 1) temp s)

-- `value + '0'` for `value = num % base`, which has the sign of `num`.
abbrev pub digit_char : (negative : Bool) → (value : ℕ) → ℕ
digit_char false value = u8 (48 + value)
digit_char true value = u8 (48 + (256 - value % 256))

-- The loop over the digits of a number with the magnitude `num`: `pos` and the buffer behind it.
-- Each round writes a byte, so a buffer's length and one is enough rounds.
unfoldable pub digits_loop :
    (rounds : ℕ) → (negative : Bool) → (num pos base : ℕ) → List ℕ → Run (ℕ × List ℕ)
unfolding store
digits_loop zero negative num at base str = fault
digits_loop (suc rounds) negative num at base str =
    let rest = digits_loop rounds negative (num / base) (at + 1) base in
    if num == 0
    then ok (at, str)
    else (do str' ← store str at (digit_char negative (num % base)); rest str')

-- `num`'s sign where the base is 10 and the number is negative.
abbrev pub sign_of : ℤ → (base : ℕ) → Bool
sign_of (pos n) base = false
sign_of (negsuc n) base = base == 10

abbrev pub is_negative : ℤ → Bool
is_negative (pos n) = false
is_negative (negsuc n) = true

-- From the loop on; `is_signed` is the variable `negative`.
unfoldable pub write_number :
    (behind : ℕ) → (is_signed digits_negative : Bool) → (num base : ℕ) → List ℕ → Run (List ℕ)
unfolding digits_loop reverse_string
write_number behind is_signed digits_negative num base str = do
  (at, str1) ← digits_loop (length str + 1) digits_negative num 0 base str
  str2 ← (if is_signed then store str1 at 45 else ok str1)
  str3 ← store str2 (if is_signed then at + 1 else at) 0
  reverse_string behind str3

-- `num` is an `int`. The negation of the least one overflows, and so does a division by 0.
unfoldable pub itoa : (behind : ℕ) → (num : ℤ) → (str : List ℕ) → (base : ℕ) → Run (List ℕ)
unfolding write_number
itoa behind num str base =
    let is_signed = sign_of num base in
    if magnitude num == 0
    then strcpy str (48 ∷ 0 ∷ 0 ∷ [])
    else (if base == 0 || (is_signed && magnitude num == 2 ^ 31)
        then fault
        else write_number behind is_signed (is_negative num && not is_signed) (magnitude num) base
            str)
