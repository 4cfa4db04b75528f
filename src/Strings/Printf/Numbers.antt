-- ===== src/Strings/Printf/Numbers.antt =====
-- Numbers as texts, and the strings that `itoa`, `x32toa` and `x64toa` leave in `temp`.
use ech_os.Bits.{bit_and-mask}
use ech_os.Base.{ℕ, zero, suc, ◌+◌, ◌-◌, ◌*◌, ◌/◌, ◌%◌, ◌^◌, ◌≤◌, ◌<◌, bit_and}
use ech_os.Base.{List, [], ◌∷◌, length, set, Run, ok, ℤ, pos, negsuc, magnitude, true, false}
use ech_os.Base.{◌≡◌, ◌≢◌, refl, sym, ap, ◌∙◌, arith, length-set, inr}
use ech_os.Strings.Laws.{byte, store-ok, IsString, Filled, strcpy_lem}
use ech_os.Strings.Itoa.{itoa}
use ech_os.Strings.Itoa.Digits.{digit, DigitCount}
use ech_os.Strings.Itoa.Decimal.{Decimal, itoa_lem, DigitCount-unique}
use ech_os.Strings.Printf.{hex_char, hex_loop}
use ech_os.Strings.Printf.Wrote.{chars, Wrote, set-Wrote, Wrote-++}

-- The `k` lowest decimal digits of `n`, the highest first.
unfoldable pub digit_list : (n k : ℕ) → List ℕ
digit_list n zero = []
digit_list n (suc k) = digit n k ∷ digit_list n k

-- Decimal notation, with no 0 in front.
pub data DecimalText : ℤ → List ℕ → Type 0 where
  of_zero : DecimalText (pos 0) (b'0' ∷ [])
  of_positive : (n k : ℕ) → n ≢ 0 → DigitCount n k → DecimalText (pos n) (digit_list n k)
  of_negative :
      (n k : ℕ) → DigitCount (suc n) k → DecimalText (negsuc n) (b'-' ∷ digit_list (suc n) k)

-- The `k` lowest hexadecimal digits of `n`, the highest first.
unfoldable pub hex_list : (n k : ℕ) → List ℕ
hex_list n zero = []
hex_list n (suc k) = hex_char (n / 2 ^ (4 * k) % 16) ∷ hex_list n k

pub length-digit_list : (n k : ℕ) → length (digit_list n k) ≡ k
unfolding digit_list
length-digit_list n zero = refl
length-digit_list n (suc k) = ap suc (length-digit_list n k)

pub length-hex_list : (n k : ℕ) → length (hex_list n k) ≡ k
unfolding hex_list
length-hex_list n zero = refl
length-hex_list n (suc k) = ap suc (length-hex_list n k)

-- `temp` holds the string `text`, and has 0 from `z` on.
pub record Holds (text : List ℕ) (z : ℕ) (temp : List ℕ) : Type 0 where
  pub size : length temp ≡ 32
  pub is_string : IsString temp (length text)
  pub same : chars (length text) 0 temp ≡ text
  pub zeros : (i : ℕ) → z ≤ i → byte temp i ≡ 0

-- The digits that stand from `at` on.
chars-digit_list :
    (n k at : ℕ) (out : List ℕ)
    → ((j : ℕ) → j < k → byte out (at + j) ≡ digit n (k - 1 - j))
    → chars k at out ≡ digit_list n k
unfolding chars digit_list
chars-digit_list n zero at out h = refl
chars-digit_list n (suc k) at out h =
    let first : byte out at ≡ digit n k =
      ap (byte out) (omega arith) ∙ h 0 (omega arith) ∙ ap (digit n) (omega arith) in
    let rest =
      chars-digit_list n k (at + 1) out (λ j l.
        ap (byte out) (omega arith) ∙ h (suc j) (omega arith) ∙ ap (digit n) (omega arith)) in
    rw (first, rest) refl

chars-text :
    (text : List ℕ) (at : ℕ) (out : List ℕ)
    → ((j : ℕ) → j < length text → byte out (at + j) ≡ byte text j)
    → chars (length text) at out ≡ text
unfolding chars
chars-text [] at out h = refl
chars-text (c ∷ text) at out h =
    let first : byte out at ≡ c = ap (byte out) (omega arith) ∙ h 0 (omega arith) in
    let rest =
      chars-text text (at + 1) out (λ j l. ap (byte out) (omega arith) ∙ h (suc j) (omega arith)) in
    rw (first, rest) refl

outside_array : (temp : List ℕ) (i : ℕ) → length temp ≤ i → byte temp i ≡ 0
outside_array [] i h = refl
outside_array (b ∷ temp) zero h = absurd (omega arith)
outside_array (b ∷ temp) (suc i) h = outside_array temp i (omega arith)

-- `hex_loop` writes the hexadecimal digits, `left` and one.
pub hex_loop-Wrote :
    (left at n : ℕ) (str : List ℕ)
    → at + left < length str
    → (out : List ℕ) × (hex_loop left at n str ≡ ok out) × Wrote str at (hex_list n (suc left)) out
unfolding hex_loop hex_list
hex_loop-Wrote zero at n str h =
    let low : bit_and n 0xf ≡ n / 1 % 16 = bit_and-mask 4 n ∙ omega arith in
    let c = hex_char (n / 1 % 16) in
    (set str at c, rw (low, store-ok str at c (omega arith)) refl, set-Wrote str at c (omega arith))
hex_loop-Wrote (suc left) at n str h =
    let low : bit_and (n / 2 ^ (4 * suc left)) 0xf ≡ n / 2 ^ (4 * suc left) % 16 =
      bit_and-mask 4 (n / 2 ^ (4 * suc left)) in
    let c = hex_char (n / 2 ^ (4 * suc left) % 16) in
    let rest = hex_loop-Wrote left (at + 1) n (set str at c) (rw length-set (omega arith)) in
    (
      rest.0,
      rw (low, store-ok str at c (omega arith)) rest.1,
      Wrote-++ str (set str at c) rest.0 (c ∷ []) (hex_list n (suc left)) at
          (set-Wrote str at c (omega arith)) rest.2,
    )

hex_char-ne : (d : ℕ) → hex_char d ≢ 0
hex_char-ne d = ground arith

hex_list-ne : (n k j : ℕ) → j < k → byte (hex_list n k) j ≢ 0
unfolding hex_list
hex_list-ne n zero j h = absurd (omega arith)
hex_list-ne n (suc k) zero h = hex_char-ne (n / 2 ^ (4 * k) % 16)
hex_list-ne n (suc k) (suc j) h = hex_list-ne n k j (omega arith)

-- `k` digits in a buffer that is 0 behind them.
hex-Holds :
    (n k z : ℕ) (temp out : List ℕ)
    → Wrote temp 0 (hex_list n k) out
    → z ≤ k
    → k < 32
    → length temp ≡ 32
    → ((i : ℕ) → z ≤ i → byte temp i ≡ 0)
    → Holds (hex_list n k) k out
hex-Holds n k z temp out w h small size zeros =
    let size' : length out ≡ 32 = w.same_length ∙ size in
    let count = length-hex_list n k in
    let inside : (j : ℕ) → j < length (hex_list n k) → byte out j ≡ byte (hex_list n k) j =
      λ j l. ap (byte out) (omega arith) ∙ w.inside j l in
    let behind : (i : ℕ) → k ≤ i → byte out i ≡ 0 =
      λ i l. w.outside i (inr (omega (arith, count))) ∙ zeros i (omega arith) in
    record {
      size = size';
      is_string = record {
        inside = omega (arith, count, size');
        stops = behind (length (hex_list n k)) (omega (arith, count));
        before = λ i l e. hex_list-ne n k i (omega (arith, count)) (sym (inside i l) ∙ e);
      };
      same = chars-text (hex_list n k) 0 out (λ j l. w.inside j l);
      zeros = behind;
    }

-- `x32toa` and `x64toa` in a buffer that is 0 behind the digits that they write.
pub hex_loop-Holds :
    (left n z : ℕ) (temp : List ℕ)
    → z ≤ suc left
    → left < 31
    → length temp ≡ 32
    → ((i : ℕ) → z ≤ i → byte temp i ≡ 0)
    → (out : List ℕ) × (hex_loop left 0 n temp ≡ ok out)
      × Holds (hex_list n (suc left)) (suc left) out
hex_loop-Holds left n z temp h small size zeros =
    let w = hex_loop-Wrote left 0 n temp (omega (arith, size)) in
    (w.0, w.1, hex-Holds n (suc left) z temp w.0 w.2 h (omega arith) size zeros)

digits-Holds :
    (n k : ℕ) (temp : List ℕ) {r : Run (List ℕ)} (d : Decimal false n temp r)
    → k ≡ d.count
    → length temp ≡ 32
    → Holds (digit_list n k) 32 d.out
digits-Holds n k temp d same size =
    let count : length (digit_list n k) ≡ 0 + d.count =
      length-digit_list n k ∙ same ∙ omega arith in
    record {
      size = d.same_length ∙ size;
      is_string = rw count d.is_string;
      same =
          ap (λ m. chars m 0 d.out) (length-digit_list n k)
          ∙ chars-digit_list n k 0 d.out
              (λ j l. d.digits j (omega arith) ∙ ap (digit n) (omega arith));
      zeros = λ i l. outside_array d.out i (omega (arith, d.same_length));
    }

minus-Holds :
    (n k : ℕ) (temp : List ℕ) {r : Run (List ℕ)} (d : Decimal true n temp r)
    → k ≡ d.count
    → length temp ≡ 32
    → Holds (b'-' ∷ digit_list n k) 32 d.out
unfolding chars
minus-Holds n k temp d same size =
    let count : suc (length (digit_list n k)) ≡ 1 + d.count =
      ap suc (length-digit_list n k ∙ same) ∙ omega arith in
    let rest =
      chars-digit_list n k 1 d.out (λ j l. d.digits j (omega arith) ∙ ap (digit n) (omega arith)) in
    record {
      size = d.same_length ∙ size;
      is_string = rw count d.is_string;
      same = rw (length-digit_list n k, d.sign refl, rest) refl;
      zeros = λ i l. outside_array d.out i (omega (arith, d.same_length));
    }

zero_text-IsString : IsString (b'0' ∷ 0 ∷ 0 ∷ []) 1
zero_text-IsString = record { inside = omega arith; stops = refl; before = λ i h. before i h }
  where
    before : (i : ℕ) → i < 1 → byte (b'0' ∷ 0 ∷ 0 ∷ []) i ≢ 0
    before zero h = omega arith
    before (suc i) h = absurd (omega arith)

zero-Holds :
    (temp : List ℕ) {r : Run (List ℕ)} (f : Filled temp (byte (b'0' ∷ 0 ∷ 0 ∷ [])) 0 2 r)
    → length temp ≡ 32
    → Holds (b'0' ∷ []) 32 f.out
zero-Holds temp f size =
    let first : byte f.out 0 ≡ b'0' = f.content 0 in
    record {
      size = f.same_length ∙ size;
      is_string = record {
        inside = omega (arith, size, f.same_length);
        stops = f.content 1;
        before = λ i l e.
            let at : i ≡ 0 = omega arith in absurd (omega (arith, first, ap (byte f.out) at, e));
      };
      same = chars-text (b'0' ∷ []) 0 f.out (λ j l.
          let at : 0 ≡ j = omega arith in
          ap (byte f.out) (omega arith) ∙ first ∙ ap (byte (b'0' ∷ [])) at);
      zeros = λ i l. outside_array f.out i (omega (arith, f.same_length));
    }

-- `itoa` in base 10 into the buffer `temp`.
pub itoa-Holds :
    (behind : ℕ) (num : ℤ) (text temp : List ℕ)
    → DecimalText num text
    → magnitude num < 2 ^ 31
    → length temp ≡ 32
    → 0 < behind
    → (out : List ℕ) × (itoa behind num temp 10 ≡ ok out) × Holds text 32 out
unfolding itoa digit_list
itoa-Holds behind _ _ temp of_zero h size free =
    let copied = strcpy_lem temp (b'0' ∷ 0 ∷ 0 ∷ []) 1 zero_text-IsString (omega (arith, size)) in
    (copied.out, copied.returns, zero-Holds temp copied size)
itoa-Holds behind _ _ temp (of_positive n k nz c) h size free =
    let d = itoa_lem behind (pos n) temp nz h (omega (arith, size)) (omega (arith, size)) free in
    let same : k ≡ d.count = DigitCount-unique n k d.count c d.is_count in
    (d.out, d.returns, digits-Holds n k temp d same size)
itoa-Holds behind _ _ temp (of_negative n k c) h size free =
    let d =
      itoa_lem behind (negsuc n) temp (omega arith) h (omega (arith, size)) (omega (arith, size))
        free in
    let same : k ≡ d.count = DigitCount-unique (suc n) k d.count c d.is_count in
    (d.out, d.returns, minus-Holds (suc n) k temp d same size)
