-- ===== src/Strings/Itoa/Decimal.antt =====
-- `itoa` in base 10 writes decimal notation.
use ech_os.Base.{ℕ, zero, suc, ◌+◌, ◌-◌, ◌^◌, ◌≤◌, ◌<◌, ◌==◌, if◌then◌else◌}
use ech_os.Base.{Bool, true, false, List, length, set, Run, ok, ℤ, pos, negsuc, magnitude}
use ech_os.Base.{◌≡◌, ◌≢◌, refl, sym, ap, ◌∙◌, arith, length-set, lt-or-le, inl, inr}
use ech_os.Base.{get_or-set_self, get_or-set_ne}
use ech_os.Strings.Laws.{byte, store-ok, IsString, Filled}
use ech_os.Strings.Itoa.{digits_loop, reverse_string, write_number, itoa, is_negative}
use ech_os.Strings.Itoa.Digits.{drop_digits, digit, DigitCount, digits_loop-Digits}
use ech_os.Strings.Itoa.Reverse.{reverse_string_lem}

abbrev pub sign_length : Bool → ℕ
sign_length is_signed = if is_signed then 1 else 0

-- Decimal notation of the number with the sign and the magnitude `n`, as a string in `out`.
pub record Decimal (is_signed : Bool) (n : ℕ) (old : List ℕ) (r : Run (List ℕ)) : Type 0 where
  pub count : ℕ
  pub out : List ℕ
  pub returns : r ≡ ok out
  pub same_length : length out ≡ length old
  pub is_count : DigitCount n count
  pub sign : is_signed ≡ true → byte out 0 ≡ 45
  pub digits : (j : ℕ) → j < count → byte out (sign_length is_signed + j) ≡ digit n (count - 1 - j)
  pub is_string : IsString out (sign_length is_signed + count)

-- The digits, the sign and the end of the string before it is reversed.
record Written (is_signed : Bool) (n count : ℕ) (old out : List ℕ) : Type 0 where
  same_length : length out ≡ length old
  sign : is_signed ≡ true → byte out count ≡ 45
  digits : (j : ℕ) → j < count → byte out j ≡ digit n j
  stops : byte out (sign_length is_signed + count) ≡ 0

small-drop_digits : (n : ℕ) → n < 2 ^ 31 → drop_digits n 10 ≡ 0
unfolding drop_digits
small-drop_digits n h = omega arith

DigitCount-bound : (n k : ℕ) → n < 2 ^ 31 → DigitCount n k → k ≤ 10
DigitCount-bound n k h c = elim (lt-or-le 10 k) [
  | inl more ↦ absurd (c.fewest 10 more (small-drop_digits n h))
  | inr l ↦ l
]

pub DigitCount-unique : (n a b : ℕ) → DigitCount n a → DigitCount n b → a ≡ b
DigitCount-unique n a b c d = elim (lt-or-le a b) [
  | inl l ↦ absurd (d.fewest a l c.all)
  | inr g ↦ elim (lt-or-le b a) [ inl l ↦ absurd (c.fewest b l d.all) | inr h ↦ omega arith ]
]

DigitCount-positive : (n k : ℕ) → n ≢ 0 → DigitCount n k → 0 < k
unfolding drop_digits
DigitCount-positive n zero h c = absurd (h c.all)
DigitCount-positive n (suc k) h c = omega arith

sign-ne :
    (is_signed : Bool) (n count i : ℕ) (old out : List ℕ)
    → Written is_signed n count old out
    → count ≤ i
    → i < sign_length is_signed + count
    → byte out i ≢ 0
sign-ne false n count i old out w above l = absurd (omega arith)
sign-ne true n count i old out w above l =
    let at : i ≡ count = omega arith in rw at (λ e. absurd (omega (arith, w.sign refl)))

Written-IsString :
    (is_signed : Bool) (n count : ℕ) (old out : List ℕ)
    → Written is_signed n count old out
    → count + 1 < length old
    → IsString out (sign_length is_signed + count)
Written-IsString is_signed n count old out w room = record {
  inside = ground (arith, w.same_length, room);
  stops = w.stops;
  before = λ i l. elim (lt-or-le i count) [
    | inl below ↦ λ e. absurd (omega (arith, w.digits i below, e))
    | inr above ↦ sign-ne is_signed n count i old out w above l
  ];
}

inside-Filled :
    (s : List ℕ) (total i : ℕ) {r : Run (List ℕ)}
    (f : Filled s (λ i. byte s (total - 1 - i)) 0 total r)
    → i < total
    → byte f.out i ≡ byte s (total - 1 - i)
inside-Filled s total i f h = f.content i ∙ ground arith

behind-Filled :
    (s : List ℕ) (total i : ℕ) {r : Run (List ℕ)}
    (f : Filled s (λ i. byte s (total - 1 - i)) 0 total r)
    → total ≤ i
    → byte f.out i ≡ byte s i
behind-Filled s total i f h = f.content i ∙ ground arith

reversed-IsString :
    (s : List ℕ) (total : ℕ) {r : Run (List ℕ)}
    (f : Filled s (λ i. byte s (total - 1 - i)) 0 total r)
    → IsString s total
    → IsString f.out total
reversed-IsString s total f str = record {
  inside = omega (arith, str.inside, f.same_length);
  stops = behind-Filled s total total f (omega arith) ∙ str.stops;
  before =
      λ i l e. str.before (total - 1 - i) (omega arith) (sym (inside-Filled s total i f l) ∙ e);
}

-- The end of `itoa`, from the string whose digits stand in the wrong order.
Decimal-reversed :
    (behind : ℕ) (is_signed : Bool) (n count : ℕ) (old out : List ℕ)
    → Written is_signed n count old out
    → DigitCount n count
    → 0 < count
    → count + 1 < length old
    → 0 < behind
    → length old < 2 ^ 64
    → Decimal is_signed n old (reverse_string behind out)
Decimal-reversed behind is_signed n count old out w c some_ room free small =
    let total = sign_length is_signed + count in
    let str = Written-IsString is_signed n count old out w room in
    let r =
      reverse_string_lem behind total out str (omega arith) free (omega (arith, w.same_length)) in
    record {
      count = count;
      out = r.out;
      returns = r.returns;
      same_length = r.same_length ∙ w.same_length;
      is_count = c;
      sign = λ e.
          inside-Filled out total 0 r (omega arith) ∙ ap (byte out) (ground (arith, e)) ∙ w.sign e;
      digits = λ j l.
          inside-Filled out total (sign_length is_signed + j) r (omega arith)
          ∙ ap (byte out) (omega arith)
          ∙ w.digits (count - 1 - j) (omega arith);
      is_string = reversed-IsString out total r str;
    }

Written-unsigned :
    (n count : ℕ) (old out : List ℕ)
    → length out ≡ length old
    → ((j : ℕ) → j < count → byte out j ≡ digit n j)
    → count < length old
    → Written false n count old (set out count 0)
Written-unsigned n count old out e d room = record {
  same_length = length-set out count 0 ∙ e;
  sign = λ q. absurd (ground (arith, q));
  digits = λ j l. get_or-set_ne out count j 0 0 (omega arith) ∙ d j l;
  stops =
      ap (byte (set out count 0)) (omega arith) ∙ get_or-set_self out count 0 0 (omega (arith, e));
}

Written-signed :
    (n count : ℕ) (old out : List ℕ)
    → length out ≡ length old
    → ((j : ℕ) → j < count → byte out j ≡ digit n j)
    → count + 1 < length old
    → Written true n count old (set (set out count 45) (count + 1) 0)
Written-signed n count old out e d room = record {
  same_length = length-set (set out count 45) (count + 1) 0 ∙ length-set out count 45 ∙ e;
  sign = λ q.
      get_or-set_ne (set out count 45) (count + 1) count 0 0 (omega arith)
      ∙ get_or-set_self out count 45 0 (omega (arith, e));
  digits = λ j l.
      get_or-set_ne (set out count 45) (count + 1) j 0 0 (omega arith)
      ∙ get_or-set_ne out count j 45 0 (omega arith)
      ∙ d j l;
  stops =
      ap (byte (set (set out count 45) (count + 1) 0)) (omega arith)
      ∙ get_or-set_self (set out count 45) (count + 1) 0 0
          (omega (arith, length-set out count 45, e));
}

-- The end of `write_number` behind its loop.
write_number-digits :
    (behind : ℕ) (is_signed : Bool) (n count : ℕ) (str out : List ℕ)
    → length out ≡ length str
    → ((j : ℕ) → j < count → byte out j ≡ digit n j)
    → DigitCount n count
    → n ≢ 0
    → count + 1 < length str
    → length str < 2 ^ 64
    → 0 < behind
    → digits_loop (length str + 1) false n 0 10 str ≡ ok (count, out)
    → Decimal is_signed n str (write_number behind is_signed false n 10 str)
unfolding write_number
write_number-digits behind false n count str out e d c nz room small free found =
    let w = Written-unsigned n count str out e d (omega arith) in
    rw (found, store-ok out count 0 (omega arith))
      (Decimal-reversed behind false n count str (set out count 0) w c
        (DigitCount-positive n count nz c) room free small)
write_number-digits behind true n count str out e d c nz room small free found =
    let w = Written-signed n count str out e d room in
    let size = length-set out count 45 in
    rw
      (
        found,
        store-ok out count 45 (omega arith),
        store-ok (set out count 45) (count + 1) 0 (omega (arith, size)),
      )
      (Decimal-reversed behind true n count str (set (set out count 45) (count + 1) 0) w c
        (DigitCount-positive n count nz c) room free small)

write_number-Decimal :
    (behind : ℕ) (is_signed : Bool) (n : ℕ) (str : List ℕ)
    → n ≢ 0
    → n < 2 ^ 31
    → 12 ≤ length str
    → length str < 2 ^ 64
    → 0 < behind
    → Decimal is_signed n str (write_number behind is_signed false n 10 str)
write_number-Decimal behind is_signed n str nz h room small free =
    let d =
      digits_loop-Digits 10 (length str + 1) n 0 str (small-drop_digits n h) (omega arith)
        (omega arith) in
    let ten = DigitCount-bound n d.count h d.is_count in
    write_number-digits behind is_signed n d.count str d.out d.same_length
      (λ j l. ap (byte d.out) (omega arith) ∙ d.inside j l) d.is_count nz (omega (arith, ten)) small
      free (d.returns ∙ ap (λ k. ok (k, d.out)) (omega arith))

-- `itoa` in base 10 of a number that is not 0 and not the least `int`, into a buffer of 12 bytes or
-- more, with a free byte behind the array of `reverse_string`: it returns, and the buffer holds a
-- string of a minus sign, for a negative number, and all the digits, the first one not 0.
pub itoa_lem :
    (behind : ℕ) (num : ℤ) (str : List ℕ)
    → magnitude num ≢ 0
    → magnitude num < 2 ^ 31
    → 12 ≤ length str
    → length str < 2 ^ 64
    → 0 < behind
    → Decimal (is_negative num) (magnitude num) str (itoa behind num str 10)
unfolding itoa
itoa_lem behind (pos n) str nz h room small free =
    let more : (n == 0) ≡ false = ground arith in
    rw more (write_number-Decimal behind false n str nz h room small free)
itoa_lem behind (negsuc n) str nz h room small free =
    let least : (suc n == 2 ^ 31) ≡ false = ground arith in
    let more : (suc n == 0) ≡ false = ground arith in
    rw (more, least) (write_number-Decimal behind true (suc n) str nz h room small free)
