-- ===== src/Strings/Printf/Rounds.antt =====
-- `vsprintf` prints what `Rendering` tells.
use ech_os.Base.{ℕ, zero, suc, ◌+◌, ◌≤◌, ◌<◌, ltb, List, [], ◌∷◌, ◌++◌, length, replicate}
use ech_os.Base.{Run, ok, true, false, ◌≡◌, refl, ap, ◌∙◌, arith, length-replicate, subst}
use ech_os.Strings.Laws.{byte, load-ok, IsString, strlen_lem}
use ech_os.Strings.Printf.{Printer, Arg, print_round, print_loop, vsprintf}
use ech_os.Strings.Printf.Wrote.{Wrote, Wrote-++, nothing-Wrote, length-++}
use ech_os.Strings.Printf.Puts.{Puts-put_char}
use ech_os.Strings.Printf.Moved.{state, IsTemp, Moved}
use ech_os.Strings.Printf.Conversions.{conversion-Moved, IsString-next}
use ech_os.Strings.Printf.Rendering.{Conversion, none_, other, long, long_long, character, decimal}
use ech_os.Strings.Printf.Rendering.{
  hexadecimal, long_long_hexadecimal, string, Rendering, end_, round,
}

-- A conversion does not leave the format.
Conversion-inside :
    (format : List ℕ) (n z i z' i' : ℕ) (args args' : List Arg) (text : List ℕ)
    → IsString format n
    → i < n
    → Conversion format z i args z' i' args' text
    → i' ≤ n
Conversion-inside format n _ _ _ _ _ _ _ f l (none_ z i args e) = omega arith
Conversion-inside format n _ _ _ _ _ _ _ f l (other z i args e o) = omega arith
Conversion-inside format n _ _ _ _ _ _ _ f l (long z i args e a b) =
    omega (arith, IsString-next format n (i + 1) 107 f (omega arith) a)
Conversion-inside format n _ _ _ _ _ _ _ f l (long_long z i args e a b c) =
    let first = IsString-next format n (i + 1) 107 f (omega arith) a in
    omega (arith, IsString-next format n (i + 2) 107 f (omega arith) b)
Conversion-inside format n _ _ _ _ _ _ _ f l (character z i num args e a) =
    omega (arith, IsString-next format n (i + 1) 98 f (omega arith) a)
Conversion-inside format n _ _ _ _ _ _ _ f l (decimal z i num args text e a d small) =
    omega (arith, IsString-next format n (i + 1) 99 f (omega arith) a)
Conversion-inside format n _ _ _ _ _ _ _ f l (hexadecimal z i num args e a h) =
    omega (arith, IsString-next format n (i + 1) 119 f (omega arith) a)
Conversion-inside format n _ _ _ _ _ _ _ f l (long_long_hexadecimal z i num args e a b c h) =
    let first = IsString-next format n (i + 1) 107 f (omega arith) a in
    let second = IsString-next format n (i + 2) 107 f (omega arith) b in
    omega (arith, IsString-next format n (i + 3) 119 f (omega arith) c)
Conversion-inside format n _ _ _ _ _ _ _ f l (string z i k s args e a q) =
    omega (arith, IsString-next format n (i + 1) 114 f (omega arith) a)

Conversion-onward :
    (format : List ℕ) (z i z' i' : ℕ) (args args' : List Arg) (text : List ℕ)
    → Conversion format z i args z' i' args' text
    → i ≤ i'
Conversion-onward format _ _ _ _ _ _ _ (none_ z i args e) = omega arith
Conversion-onward format _ _ _ _ _ _ _ (other z i args e o) = omega arith
Conversion-onward format _ _ _ _ _ _ _ (long z i args e a b) = omega arith
Conversion-onward format _ _ _ _ _ _ _ (long_long z i args e a b c) = omega arith
Conversion-onward format _ _ _ _ _ _ _ (character z i num args e a) = omega arith
Conversion-onward format _ _ _ _ _ _ _ (decimal z i num args text e a d small) = omega arith
Conversion-onward format _ _ _ _ _ _ _ (hexadecimal z i num args e a h) = omega arith
Conversion-onward format _ _ _ _ _ _ _ (long_long_hexadecimal z i num args e a b c h) = omega arith
Conversion-onward format _ _ _ _ _ _ _ (string z i k s args e a q) = omega arith

-- A round writes the text of its conversion and the character behind it.
print_round-Moved :
    (behind n z i z' i' written : ℕ) (format temp str : List ℕ) (args args' : List Arg)
    (text : List ℕ)
    → IsString format n
    → i < n
    → Conversion format z i args z' i' args' text
    → IsTemp z temp
    → 0 < behind
    → written + length text < length str
    → Moved written str
        (i' + 1)
        args'
        z'
        (text ++ byte format i' ∷ [])
        (print_round behind format (state i written temp str args))
unfolding print_round
print_round-Moved behind n z i z' i' written format temp str args args' text f l c t free room =
    let m =
      conversion-Moved behind n z i z' i' written format temp str args args' text f l c t free
        (omega arith) in
    let last = byte format i' in
    let put =
      Puts-put_char (state i' (written + length text) m.temp m.out args') last
        (omega (arith, m.is_written.same_length)) in
    let end = Conversion-inside format n z i z' i' args args' text f l c in
    rw
      (
        load-ok format i (omega (arith, f.inside)),
        m.returns,
        load-ok format i' (omega (arith, f.inside)),
        put.returns,
      )
      (record {
        out = put.str;
        temp = m.temp;
        returns =
            ap (λ k. ok (state (i' + 1) k m.temp put.str args'))
              (omega (arith, length-++ text (last ∷ [])));
        is_written =
            Wrote-++ str m.out put.str text (last ∷ []) written m.is_written put.is_written;
        is_temp = m.is_temp;
      })

-- A run of the loop that ends with `text` written.
record Printed (written : ℕ) (str text : List ℕ) (r : Run Printer) : Type 0 where
  end_state : Printer
  returns : r ≡ ok end_state
  count : end_state.written ≡ written + length text
  is_written : Wrote str written text end_state.str

Printed-++ :
    (written : ℕ) (str mid a b : List ℕ) {r : Run Printer}
    → Wrote str written a mid
    → Printed (written + length a) mid b r
    → Printed written str (a ++ b) r
Printed-++ written str mid a b w d = record {
  end_state = d.end_state;
  returns = d.returns;
  count = d.count ∙ omega (arith, length-++ a b);
  is_written = Wrote-++ str mid d.end_state.str a b written w d.is_written;
}

snoc-++ : (a : List ℕ) (c : ℕ) (b : List ℕ) → (a ++ c ∷ []) ++ b ≡ a ++ c ∷ b
snoc-++ [] c b = refl
snoc-++ (d ∷ a) c b = ap (λ t. d ∷ t) (snoc-++ a c b)

Printed-snoc :
    (written : ℕ) (str mid text : List ℕ) (last : ℕ) (rest : List ℕ) {r : Run Printer}
    → Wrote str written (text ++ last ∷ []) mid
    → Printed (written + length (text ++ last ∷ [])) mid rest r
    → Printed written str (text ++ last ∷ rest) r
Printed-snoc written str mid text last rest {r} w d =
    subst (λ t. Printed written str t r) (snoc-++ text last rest)
      (Printed-++ written str mid (text ++ last ∷ []) rest w d)

loop_end :
    (rounds behind n i written : ℕ) (format temp str : List ℕ) (args : List Arg)
    → n ≤ i
    → Printed written str []
        (print_loop (suc rounds) behind n format (state i written temp str args))
unfolding print_loop
loop_end rounds behind n i written format temp str args h =
    let no : ltb i n ≡ false = ground arith in
    rw no (record {
      end_state = state i written temp str args;
      returns = refl;
      count = omega arith;
      is_written = nothing-Wrote str written;
    })

-- Every round reads a character at least, so `rounds` are enough.
print_loop-Printed :
    (rounds behind n z i written : ℕ) (format temp str : List ℕ) (args : List Arg) (text : List ℕ)
    → n < i + rounds
    → IsString format n
    → Rendering format n z i args text
    → IsTemp z temp
    → 0 < behind
    → written + length text ≤ length str
    → 0 < rounds
    → Printed written str text (print_loop rounds behind n format (state i written temp str args))
unfolding print_loop
print_loop-Printed zero behind n z i written format temp str args text h f r t free room near =
    absurd (omega arith)
print_loop-Printed (suc rounds) behind n _ _ written format temp str _ _ h f (end_ z i args l) t
      free room near =
    loop_end rounds behind n i written format temp str args l
print_loop-Printed (suc rounds) behind n _ _ written format temp str _ _ h f
      (round z i z' i' args args' text rest l c r) t free room near =
    let yes : ltb i n ≡ true = ground arith in
    let last = byte format i' in
    let size = length-++ text (last ∷ rest) in
    let size' = length-++ text (last ∷ []) in
    let on = Conversion-onward format z i z' i' args args' text c in
    let inside = Conversion-inside format n z i z' i' args args' text f l c in
    let m =
      print_round-Moved behind n z i z' i' written format temp str args args' text f l c t free
        (omega (arith, size)) in
    let d =
      print_loop-Printed rounds behind n z' (i' + 1) (written + length (text ++ last ∷ [])) format
        m.temp m.out args' rest (omega arith) f r m.is_temp free
        (omega (arith, size, size', m.is_written.same_length)) (omega arith) in
    rw (yes, m.returns) (Printed-snoc written str m.out text last rest m.is_written d)

-- What `vsprintf` returns where it prints `text`: the number of characters, and a buffer with the
-- text in front, which is else as it was.
pub record Formatted (str text : List ℕ) (r : Run (ℕ × List ℕ)) : Type 0 where
  pub out : List ℕ
  pub returns : r ≡ ok (length text, out)
  pub is_written : Wrote str 0 text out

zero_temp : (k i : ℕ) → byte (replicate k 0) i ≡ 0
zero_temp zero i = refl
zero_temp (suc k) zero = refl
zero_temp (suc k) (suc i) = zero_temp k i

-- `vsprintf` returns and prints the text that `Rendering` tells of the format and the arguments,
-- into a buffer with room for it, with a free byte behind the array of `reverse_string`. It returns
-- the number of characters, and the buffer is unchanged behind the text.
pub vsprintf_lem :
    (behind n : ℕ) (str format : List ℕ) (args : List Arg) (text : List ℕ)
    → IsString format n
    → Rendering format n 0 0 args text
    → length text ≤ length str
    → 0 < behind
    → Formatted str text (vsprintf behind str format args)
unfolding vsprintf
vsprintf_lem behind n str format args text f r room free =
    let d =
      print_loop-Printed (n + 1) behind n 0 0 0 format (replicate 32 0) str args text (omega arith)
        f r (record { size = length-replicate {A = ℕ} 32 0; zeros = λ i l. zero_temp 32 i }) free
        (omega arith) (omega arith) in
    rw (strlen_lem format n f, d.returns)
      (record {
        out = d.end_state.str;
        returns = ap (λ k. ok (k, d.end_state.str)) (d.count ∙ omega arith);
        is_written = d.is_written;
      })
