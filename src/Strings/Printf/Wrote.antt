-- ===== src/Strings/Printf/Wrote.antt =====
-- Texts as lists, and the part of a buffer where one was written.
use ech_os.Base.{ℕ, zero, suc, ◌+◌, ◌-◌, ◌≤◌, ◌<◌, List, [], ◌∷◌, ◌++◌, length, set}
use ech_os.Base.{◌≡◌, ◌⊎◌, inl, inr, refl, sym, ap, ◌∙◌, arith, length-set, lt-or-le}
use ech_os.Base.{get_or-set_self, get_or-set_ne}
use ech_os.Strings.Laws.{byte}

-- The text of `n` bytes of a buffer, from `at` on.
unfoldable pub chars : (n at : ℕ) → List ℕ → List ℕ
chars zero at buffer = []
chars (suc n) at buffer = byte buffer at ∷ chars n (at + 1) buffer

pub length-chars : (n at : ℕ) (buffer : List ℕ) → length (chars n at buffer) ≡ n
unfolding chars
length-chars zero at buffer = refl
length-chars (suc n) at buffer = ap suc (length-chars n (at + 1) buffer)

pub length-++ : (a b : List ℕ) → length (a ++ b) ≡ length a + length b
length-++ [] b = omega arith
length-++ (c ∷ a) b = let rest = length-++ a b in omega (arith, rest)

byte-++_inside : (a b : List ℕ) (j : ℕ) → j < length a → byte (a ++ b) j ≡ byte a j
byte-++_inside [] b j h = absurd (omega arith)
byte-++_inside (c ∷ a) b zero h = refl
byte-++_inside (c ∷ a) b (suc j) h = byte-++_inside a b j (omega arith)

byte-++_behind : (a b : List ℕ) (i j : ℕ) → i ≡ length a + j → byte (a ++ b) i ≡ byte b j
byte-++_behind [] b i j e = ap (byte b) (omega arith)
byte-++_behind (c ∷ a) b zero j e = absurd (omega arith)
byte-++_behind (c ∷ a) b (suc i) j e = byte-++_behind a b i j (omega arith)

-- `text` stands in `new` from `at` on, and all else is as in `old`.
pub record Wrote (old : List ℕ) (at : ℕ) (text new : List ℕ) : Type 0 where
  pub same_length : length new ≡ length old
  pub inside : (j : ℕ) → j < length text → byte new (at + j) ≡ byte text j
  pub outside : (i : ℕ) → (i < at) ⊎ (at + length text ≤ i) → byte new i ≡ byte old i

pub nothing-Wrote : (old : List ℕ) (at : ℕ) → Wrote old at [] old
nothing-Wrote old at = record {
  same_length = refl;
  inside = λ j l. absurd (omega arith);
  outside = λ i h. refl;
}

pub set-Wrote : (old : List ℕ) (at c : ℕ) → at < length old → Wrote old at (c ∷ []) (set old at c)
set-Wrote old at c h = record {
  same_length = length-set old at c;
  inside = λ j l. inside j l;
  outside = λ i k. get_or-set_ne old at i c 0 (omega (arith, k));
}
  where
    inside : (j : ℕ) → j < 1 → byte (set old at c) (at + j) ≡ byte (c ∷ []) j
    inside zero l = ap (byte (set old at c)) (omega arith) ∙ get_or-set_self old at c 0 h
    inside (suc j) l = absurd (omega arith)

pub Wrote-++ :
    (old mid new a b : List ℕ) (at : ℕ)
    → Wrote old at a mid
    → Wrote mid (at + length a) b new
    → Wrote old at (a ++ b) new
Wrote-++ old mid new a b at v w = record {
  same_length = w.same_length ∙ v.same_length;
  inside = λ j l. elim (lt-or-le j (length a)) [
    | inl first ↦
        w.outside (at + j) (inl (omega arith)) ∙ v.inside j first ∙ sym (byte-++_inside a b j first)
    | inr second ↦ behind j l second
  ];
  outside = λ i h.
      w.outside i (omega (arith, h, length-++ a b)) ∙ v.outside i (omega (arith, h, length-++ a b));
}
  where
    behind : (j : ℕ) → j < length (a ++ b) → length a ≤ j → byte new (at + j) ≡ byte (a ++ b) j
    behind j l h =
        let k = j - length a in
        ap (byte new) (omega arith)
        ∙ w.inside k (omega (arith, length-++ a b))
        ∙ sym (byte-++_behind a b j k (omega arith))
