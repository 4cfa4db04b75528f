-- ===== src/Strings/Itoa/Reverse.antt =====
-- `reverse_string` reverses a string where the byte behind its array may be overwritten.
use ech_os.Base.{ℕ, zero, suc, ◌+◌, ◌-◌, ◌^◌, ◌≤◌, ◌<◌, ◌==◌, false}
use ech_os.Base.{List, [], ◌∷◌, length, replicate, set, fault, sub64, sub64}
use ech_os.Base.{
  ◌≡◌, refl, ◌∙◌, arith, length-set, length-replicate, get_elem?, none, lt-or-le, inl, inr,
}
use ech_os.Strings.{store, strcpy, memcpy, memcpy_loop}
use ech_os.Strings.Laws.{
  byte, load-ok, store-ok, IsString, Filled, Filled-step, strlen_lem, memcpy_loop-Filled,
}
use ech_os.Strings.Itoa.{reverse_loop, reverse_string}

reverse_loop-Filled :
    (left lo hi c2 : ℕ) (temp s : List ℕ)
    → lo + left ≡ hi
    → c2 ≡ sub64 left 1
    → left < 2 ^ 64
    → hi ≤ length s
    → hi ≤ length temp
    → Filled s (λ i. byte temp (hi - 1 - i)) lo hi (reverse_loop left lo c2 temp s)
unfolding reverse_loop
reverse_loop-Filled zero lo hi c2 temp s e c small h k = record {
  out = s;
  returns = refl;
  same_length = refl;
  content = λ i. ground arith;
}
reverse_loop-Filled (suc left) lo hi c2 temp s e c small h k =
    let at : c2 ≡ hi - 1 - lo = omega arith in
    let next : sub64 c2 1 ≡ sub64 left 1 = omega arith in
    rw (load-ok temp c2 (omega arith), store-ok s lo (byte temp c2) (omega arith), at)
      (Filled-step s (λ i. byte temp (hi - 1 - i)) lo hi (omega arith) (omega arith)
        (reverse_loop-Filled left (lo + 1) hi (sub64 (hi - 1 - lo) 1) temp
          (set s lo (byte temp (hi - 1 - lo))) (omega arith) (rw at at next) (omega arith)
          (rw length-set h) k))

get_elem?-behind : (buffer : List ℕ) (i : ℕ) → length buffer ≤ i → get_elem? buffer i ≡ none
get_elem?-behind [] i h = refl
get_elem?-behind (b ∷ buffer) zero h = absurd (omega arith)
get_elem?-behind (b ∷ buffer) (suc i) h = get_elem?-behind buffer i (omega arith)

store-fault : (buffer : List ℕ) (i b : ℕ) → length buffer ≤ i → store buffer i b ≡ fault
unfolding store
store-fault buffer i b h = rw (store, get_elem?-behind buffer i h) refl

memcpy_loop_overflow :
    (left lo : ℕ) (dest src : List ℕ)
    → lo ≤ length dest
    → length dest < lo + left
    → lo + left ≤ length src
    → memcpy_loop left lo dest src ≡ fault
unfolding memcpy_loop
memcpy_loop_overflow zero lo dest src h k l = absurd (omega arith)
memcpy_loop_overflow (suc left) lo dest src h k l =
    rw (load-ok src lo (omega arith)) (elim (lt-or-le lo (length dest)) [
      | inl inside ↦ rw (store-ok dest lo (byte src lo) inside) (
          memcpy_loop_overflow left (lo + 1) (set dest lo (byte src lo)) src
            (rw length-set (omega arith)) (rw length-set (omega arith)) (omega arith))
      | inr end ↦ rw (store-fault dest lo (byte src lo) end) refl
    ])

-- A string of at least one character is reversed in place, and nothing behind it changes, where at
-- least one byte behind the array of `reverse_string` is free.
pub reverse_string_lem :
    (behind n : ℕ) (s : List ℕ)
    → IsString s n
    → 0 < n
    → 0 < behind
    → length s < 2 ^ 64
    → Filled s (λ i. byte s (n - 1 - i)) 0 n (reverse_string behind s)
unfolding reverse_string strcpy memcpy
reverse_string_lem behind n s str some_ room small =
    let size : length {A = ℕ} (replicate (n + behind) 0) ≡ n + behind =
      length-replicate (n + behind) 0 in
    let copied =
      memcpy_loop-Filled (n + 1) 0 (n + 1) (replicate (n + behind) 0) s (omega arith)
        (omega (arith, size)) (omega (arith, str.inside)) in
    let more : (n == 0) ≡ false = ground arith in
    let turned =
      reverse_loop-Filled n 0 n (n - 1) copied.out s (omega arith)
        (omega (arith, str.inside, small)) (omega (arith, str.inside, small))
        (omega (arith, str.inside)) (omega (arith, size, copied.same_length)) in
    rw (strlen_lem s n str, more, memcpy, copied.returns)
      (record {
        out = turned.out;
        returns = turned.returns;
        same_length = turned.same_length;
        content = λ i. turned.content i ∙ ground (arith, copied.content (n - 1 - i));
      })

-- Where no byte behind the array is free, every string of at least one character is written past the
-- end of the array.
pub reverse_string_overflow :
    (n : ℕ) (s : List ℕ) → IsString s n → 0 < n → reverse_string 0 s ≡ fault
unfolding reverse_string strcpy memcpy
reverse_string_overflow n s str some_ =
    let more : (n == 0) ≡ false = ground arith in
    let size : length {A = ℕ} (replicate (n + 0) 0) ≡ n + 0 = length-replicate (n + 0) 0 in
    let full =
      memcpy_loop_overflow (n + 1) 0 (replicate (n + 0) 0) s (omega arith) (omega (arith, size))
        (omega (arith, str.inside)) in
    rw (strlen_lem s n str, more, memcpy, full) refl
