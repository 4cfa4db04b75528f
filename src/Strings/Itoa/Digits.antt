-- ===== src/Strings/Itoa/Digits.antt =====
-- The loop of `itoa` in base 10 writes the decimal digits, the last one first.
use ech_os.Base.{ℕ, zero, suc, ◌+◌, ◌/◌, ◌%◌, ◌≤◌, ◌<◌, ◌==◌, true, false}
use ech_os.Base.{
  List, length, set, Run, ok, u8, ◌≡◌, ◌≢◌, ◌⊎◌, refl, ap, ◌∙◌, arith, length-set, Bool-cases, inl,
  inr,
}
use ech_os.Base.{get_or-set_self, get_or-set_ne}
use ech_os.Strings.Laws.{byte, store-ok}
use ech_os.Strings.Itoa.{digits_loop}

-- `n` without its last `j` decimal digits.
unfoldable pub drop_digits : (n j : ℕ) → ℕ
drop_digits n zero = n
drop_digits n (suc j) = drop_digits (n / 10) j

-- The digit of `n` with `j` digits behind it, as a character.
abbrev pub digit : (n j : ℕ) → ℕ
digit n j = 48 + drop_digits n j % 10

-- `k` is the number of digits of `n`, none for 0.
pub record DigitCount (n k : ℕ) : Type 0 where
  pub all : drop_digits n k ≡ 0
  pub fewest : (j : ℕ) → j < k → drop_digits n j ≢ 0

-- The digits of `n` stand in `out` from `at` on, and all else is as in `old`.
pub record Digits (n at : ℕ) (old : List ℕ) (r : Run (ℕ × List ℕ)) : Type 0 where
  pub count : ℕ
  pub out : List ℕ
  pub returns : r ≡ ok (at + count, out)
  pub same_length : length out ≡ length old
  pub is_count : DigitCount n count
  pub inside : (j : ℕ) → j < count → byte out (at + j) ≡ digit n j
  pub outside : (i : ℕ) → (i < at) ⊎ (at + count ≤ i) → byte out i ≡ byte old i

DigitCount-zero : DigitCount 0 0
unfolding drop_digits
DigitCount-zero = record { all = refl; fewest = λ j l. absurd (omega arith) }

DigitCount-suc : (n k : ℕ) → n ≢ 0 → DigitCount (n / 10) k → DigitCount n (suc k)
unfolding drop_digits
DigitCount-suc n k nz c = record { all = c.all; fewest = fewest n k nz c }
  where
    fewest : (n k : ℕ) → n ≢ 0 → DigitCount (n / 10) k → (j : ℕ) → j < suc k → drop_digits n j ≢ 0
    fewest n k nz c zero l = nz
    fewest n k nz c (suc j) l = c.fewest j (omega arith)

Digits-suc :
    (n at : ℕ) (old : List ℕ) {r : Run (ℕ × List ℕ)}
    → n ≢ 0
    → at < length old
    → Digits (n / 10) (at + 1) (set old at (digit n 0)) r
    → Digits n at old r
unfolding drop_digits
Digits-suc n at old {r} nz l d = record {
  count = suc d.count;
  out = d.out;
  returns = d.returns ∙ ap (λ k. ok (k, d.out)) (omega arith);
  same_length = d.same_length ∙ length-set old at (digit n 0);
  is_count = DigitCount-suc n d.count nz d.is_count;
  inside = inside d;
  outside = λ i h.
      d.outside i (omega (arith, h)) ∙ get_or-set_ne old at i (digit n 0) 0 (omega (arith, h));
}
  where
    inside :
        (e : Digits (n / 10) (at + 1) (set old at (digit n 0)) r)
        → (j : ℕ) → j < suc e.count
        → byte e.out (at + j) ≡ digit n j
    inside e zero h =
        ap (byte e.out) (omega arith)
        ∙ e.outside at (inl (omega arith))
        ∙ get_or-set_self old at (digit n 0) 0 l
    inside e (suc j) h = ap (byte e.out) (omega arith) ∙ e.inside j (omega arith)

none-Digits :
    (rounds n at : ℕ) (str : List ℕ)
    → n ≡ 0
    → Digits n at str (digits_loop (suc rounds) false n at 10 str)
unfolding digits_loop
none-Digits rounds n at str e =
    let zero_ : (n == 0) ≡ true = ground arith in
    rw (digits_loop, zero_)
      (record {
        count = 0;
        out = str;
        returns = ap (λ k. ok (k, str)) (omega arith);
        same_length = refl;
        is_count = rw e DigitCount-zero;
        inside = λ j l. absurd (omega arith);
        outside = λ i h. refl;
      })

pub digits_loop-Digits :
    (room rounds n at : ℕ) (str : List ℕ)
    → drop_digits n room ≡ 0
    → at + room ≤ length str
    → room < rounds
    → Digits n at str (digits_loop rounds false n at 10 str)
unfolding digits_loop drop_digits
digits_loop-Digits room zero n at str e l h = absurd (omega arith)
digits_loop-Digits zero (suc rounds) n at str e l h = none-Digits rounds n at str e
digits_loop-Digits (suc room) (suc rounds) n at str e l h = elim (Bool-cases (n == 0)) [
  | inl z ↦ none-Digits rounds n at str (ground arith)
  | inr nz ↦
      let same : u8 (48 + n % 10) ≡ digit n 0 = omega arith in
      rw (digits_loop, nz, same, store-ok str at (digit n 0) (omega arith))
        (Digits-suc n at str (ground arith) (omega arith) (
          digits_loop-Digits room rounds (n / 10) (at + 1) (set str at (digit n 0)) e
            (rw length-set (omega arith)) (omega arith)))
]
