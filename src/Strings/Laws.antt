-- ===== src/Strings/Laws.antt =====
-- What the string functions and the stack do on buffers that are large enough.
use ech_os.Base.{
  ℕ, zero, suc, ◌+◌, ◌-◌, ◌%◌, ◌^◌, ◌≤◌, ◌<◌, ◌==◌, ltb, leb, ◌&&◌, if◌then◌else◌, u8,
}
use ech_os.Base.{List, length, get_or, set, Run, ok, true, false}
use ech_os.Base.{◌≡◌, ◌≢◌, refl, sym, ap, ◌∙◌, arith, inl, inr, eq-or-ne}
use ech_os.Base.{get_elem?-get_or, get_or-set_self, get_or-set_ne, length-set, u64}
use ech_os.Strings.{
  load, store, strlen, strlen_loop, memset, memset_loop, memcpy, memcpy_loop, strcpy,
}
use ech_os.Strings.{Compared, less, same, greater, char_less, memcmp, memcmp_loop, Stack64}
use ech_os.Strings.{stack64_push, stack64_pop}

abbrev pub byte : List ℕ → ℕ → ℕ
byte buffer i = get_or buffer i 0

pub load-ok : (buffer : List ℕ) (i : ℕ) → i < length buffer → load buffer i ≡ ok (byte buffer i)
unfolding load
load-ok buffer i h = ground (arith, get_elem?-get_or buffer i 0 h)

pub store-ok :
    (buffer : List ℕ) (i b : ℕ) → i < length buffer → store buffer i b ≡ ok (set buffer i b)
unfolding store
store-ok buffer i b h = ground (arith, get_elem?-get_or buffer i 0 h)

-- The bytes before the first zero: a C string of length `n` at the head of a buffer.
pub record IsString (str : List ℕ) (n : ℕ) : Type 0 where
  pub inside : n < length str
  pub stops : byte str n ≡ 0
  pub before : (i : ℕ) → i < n → byte str i ≢ 0

strlen_loop-length :
    (left len n : ℕ) (str : List ℕ)
    → IsString str n
    → len ≤ n
    → n < len + left
    → strlen_loop left len str ≡ ok n
unfolding strlen_loop
strlen_loop-length zero len n str s p q = absurd (omega arith)
strlen_loop-length (suc left) len n str s p q =
    rw (load-ok str len (omega (arith, s.inside))) (elim (eq-or-ne len n) [
      | inl here ↦
          let zero_ : (byte str len == 0) ≡ true = ground (arith, s.stops) in rw zero_ (ap ok here)
      | inr before ↦
          let more : (byte str len == 0) ≡ false = ground (arith, s.before len (omega arith)) in
          rw more (strlen_loop-length left (len + 1) n str s (omega arith) (omega arith))
    ])

-- `strlen` of a buffer that holds a string of length `n` is `n`.
pub strlen_lem : (str : List ℕ) (n : ℕ) → IsString str n → strlen str ≡ ok n
unfolding strlen
strlen_lem str n s =
    strlen_loop-length (length str + 1) 0 n str s (omega arith) (omega (arith, s.inside))

-- A buffer of the same size that agrees with `f` from `lo` to `hi - 1` and with `old` elsewhere.
pub record Filled (old : List ℕ) (f : ℕ → ℕ) (lo hi : ℕ) (r : Run (List ℕ)) : Type 0 where
  pub out : List ℕ
  pub returns : r ≡ ok out
  pub same_length : length out ≡ length old
  pub content : (i : ℕ) → byte out i ≡ (if leb lo i && ltb i hi then f i else byte old i)

pub Filled-step :
    (old : List ℕ) (f : ℕ → ℕ) (lo hi : ℕ) {r : Run (List ℕ)}
    → lo < hi
    → lo < length old
    → Filled (set old lo (f lo)) f (lo + 1) hi r
    → Filled old f lo hi r
Filled-step old f lo hi p q rest = record {
  out = rest.out;
  returns = rest.returns;
  same_length = rest.same_length ∙ length-set old lo (f lo);
  content = λ i. elim (eq-or-ne lo i) [
    | inl here ↦
        rest.content i
        ∙ ground (
          arith,
          here,
          get_or-set_self old lo (f lo) 0 q,
          ap f here,
          ap (byte (set old lo (f lo))) here,
        )
    | inr other ↦ rest.content i ∙ ground (arith, get_or-set_ne old lo i (f lo) 0 other)
  ];
}

memset_loop-Filled :
    (left lo hi c : ℕ) (s : List ℕ)
    → lo + left ≡ hi
    → hi ≤ length s
    → Filled s (λ _. u8 c) lo hi (memset_loop left lo c s)
unfolding memset_loop
memset_loop-Filled zero lo hi c s e h = record {
  out = s;
  returns = refl;
  same_length = refl;
  content = λ i. ground arith;
}
memset_loop-Filled (suc left) lo hi c s e h = rw (store-ok s lo (u8 c) (omega arith)) (
    Filled-step s (λ _. u8 c) lo hi (omega arith) (omega arith)
      (memset_loop-Filled left (lo + 1) hi c (set s lo (u8 c)) (omega arith) (rw length-set h)))

-- `memset` within a buffer sets its first `n` bytes to the low byte of `c` and no others.
pub memset_lem : (s : List ℕ) (c n : ℕ) → n ≤ length s → Filled s (λ _. u8 c) 0 n (memset s c n)
unfolding memset
memset_lem s c n h = memset_loop-Filled n 0 n c s (omega arith) h

pub memcpy_loop-Filled :
    (left lo hi : ℕ) (dest src : List ℕ)
    → lo + left ≡ hi
    → hi ≤ length dest
    → hi ≤ length src
    → Filled dest (byte src) lo hi (memcpy_loop left lo dest src)
unfolding memcpy_loop
memcpy_loop-Filled zero lo hi dest src e h k = record {
  out = dest;
  returns = refl;
  same_length = refl;
  content = λ i. ground arith;
}
memcpy_loop-Filled (suc left) lo hi dest src e h k =
    rw (load-ok src lo (omega arith), store-ok dest lo (byte src lo) (omega arith))
      (Filled-step dest (byte src) lo hi (omega arith) (omega arith) (
        memcpy_loop-Filled left (lo + 1) hi (set dest lo (byte src lo)) src (omega arith)
          (rw length-set h) k))

-- `strcpy` of a string of length `n` into another buffer with room for it copies the string and its
-- end, and changes nothing behind them.
pub strcpy_lem :
    (dest src : List ℕ) (n : ℕ)
    → IsString src n
    → n < length dest
    → Filled dest (byte src) 0 (n + 1) (strcpy dest src)
unfolding strcpy memcpy
strcpy_lem dest src n s h = rw (strlen_lem src n s) (
    memcpy_loop-Filled (n + 1) 0 (n + 1) dest src (omega arith) (omega arith)
      (omega (arith, s.inside)))

-- The first difference of two buffers before `n`, if there is one.
pub data Comparison (s1 s2 : List ℕ) (lo n : ℕ) : Run Compared → Type 0 where
  equal : ((i : ℕ) → lo ≤ i → i < n → byte s1 i ≡ byte s2 i) → Comparison s1 s2 lo n (ok same)
  differ :
      (i : ℕ)
      → lo ≤ i
      → i < n
      → ((j : ℕ) → lo ≤ j → j < i → byte s1 j ≡ byte s2 j)
      → byte s1 i ≢ byte s2 i
      → Comparison s1 s2 lo n (ok (if char_less (byte s1 i) (byte s2 i) then less else greater))

Comparison-step :
    (s1 s2 : List ℕ) (lo n : ℕ) (r : Run Compared)
    → lo < n
    → byte s1 lo ≡ byte s2 lo
    → Comparison s1 s2 (lo + 1) n r
    → Comparison s1 s2 lo n r
Comparison-step s1 s2 lo n _ p e (equal all) = equal (λ i h k. elim (eq-or-ne lo i) [
  | inl here ↦ ap (byte s1) (sym here) ∙ e ∙ ap (byte s2) here
  | inr other ↦ all i (omega (arith, other)) k
])
Comparison-step s1 s2 lo n _ p e (differ i h k all ne) =
    differ i (omega arith) k
      (λ j l m. elim (eq-or-ne lo j) [
        | inl here ↦ ap (byte s1) (sym here) ∙ e ∙ ap (byte s2) here
        | inr other ↦ all j (omega (arith, other)) m
      ])
      ne

memcmp_loop-Comparison :
    (left i n : ℕ) (s1 s2 : List ℕ)
    → i + left ≡ n
    → n ≤ length s1
    → n ≤ length s2
    → Comparison s1 s2 i n (memcmp_loop left i s1 s2)
unfolding memcmp_loop
memcmp_loop-Comparison zero i n s1 s2 e h k = equal (λ j l m. absurd (omega arith))
memcmp_loop-Comparison (suc left) i n s1 s2 e h k =
    rw (load-ok s1 i (omega arith), load-ok s2 i (omega arith))
      (elim (eq-or-ne (byte s1 i) (byte s2 i)) [
        | inl q ↦
            let yes : (byte s1 i == byte s2 i) ≡ true = ground arith in
            rw yes (
              Comparison-step s1 s2 i n _ (omega arith) q
                (memcmp_loop-Comparison left (i + 1) n s1 s2 (omega arith) h k))
        | inr ne ↦
            let no : (byte s1 i == byte s2 i) ≡ false = ground (arith, ne) in
            rw no (differ i (omega arith) (omega arith) (λ j l m. absurd (omega arith)) ne)
      ])

-- `memcmp` of the first `n` bytes of two buffers that have them: 0 where they agree, else the order
-- of the first two bytes that differ, as signed characters.
pub memcmp_lem :
    (s1 s2 : List ℕ) (n : ℕ) → n ≤ length s1 → n ≤ length s2 → Comparison s1 s2 0 n (memcmp s1 s2 n)
unfolding memcmp
memcmp_lem s1 s2 n h k = memcmp_loop-Comparison n 0 n s1 s2 (omega arith) h k

-- A push within the buffer succeeds, and a pop behind it gives the pushed word and leaves the
-- pointer where it was, the words below it unchanged.
pub stack64_pop-stack64_push :
    (s : Stack64) (value : ℕ)
    → s.sp < length s.stack
    → length s.stack < 2 ^ 64
    → (pushed popped : Stack64) × (stack64_push s value ≡ ok pushed)
      × (stack64_pop pushed ≡ ok (value, popped))
      × (popped.sp ≡ s.sp)
      × (popped.size ≡ s.size)
      × ((i : ℕ) → i < s.sp → byte popped.stack i ≡ byte s.stack i)
unfolding stack64_push stack64_pop
stack64_pop-stack64_push s value h b =
    let words = set s.stack s.sp value in
    let back : ((u64 (s.sp + 1) + 2 ^ 64 - 1) % 2 ^ 64) ≡ s.sp = omega arith in
    (
      record s { stack = words; sp = u64 (s.sp + 1) },
      record s { stack = words; sp = s.sp },
      rw (store-ok s.stack s.sp value h) refl,
      rw (back, load-ok words s.sp (rw length-set h), get_or-set_self s.stack s.sp value 0 h) refl,
      refl,
      refl,
      λ i l. get_or-set_ne s.stack s.sp i value 0 (omega arith),
    )
