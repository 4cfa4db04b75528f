-- ===== src/Strings/Printf/Conversions.antt =====
-- Each conversion of `vsprintf` writes its text.
use ech_os.Base.{ℕ, suc, ◌+◌, ◌==◌, ◌≤◌, ◌<◌, if◌then◌else◌, List, [], ◌∷◌, length}
use ech_os.Base.{Run, ok, false, u8, ◌≡◌, refl, ap, ◌∙◌, arith, subst, lt-or-le, inl, inr}
use ech_os.Strings.Laws.{byte, load-ok, IsString}
use ech_os.Strings.Printf.{Printer, Arg, int_arg, uint64_arg, text_arg, to_u32, convert, by_char}
use ech_os.Strings.Printf.{convert_c, convert_l, convert_ll, convert_llx, convert_s}
use ech_os.Strings.Printf.Wrote.{chars, length-chars}
use ech_os.Strings.Printf.Puts.{Puts-nothing, Puts-put_char, Puts-put_text}
use ech_os.Strings.Printf.Numbers.{hex_list, length-hex_list}
use ech_os.Strings.Printf.Rendering.{Conversion, none_, other, long, long_long, character, decimal}
use ech_os.Strings.Printf.Rendering.{hexadecimal, long_long_hexadecimal, string, IsOther}
use ech_os.Strings.Printf.Moved.{
  state, IsTemp, Moved, conversion, Puts-Moved, convert_d-Moved, convert_x-Moved, convert_llx-Moved,
}

Moved-place :
    (i j written z : ℕ) (str : List ℕ) (args : List Arg) (text : List ℕ) (r : Run Printer)
    → i ≡ j
    → Moved written str i args z text r
    → Moved written str j args z text r
Moved-place i j written z str args text r e m = subst (λ k. Moved written str k args z text r) e m

-- The place behind a character that is not the end of the string is in the string or its end.
pub IsString-next : (s : List ℕ) (n i c : ℕ) → IsString s n → i ≤ n → byte s i ≡ suc c → i + 1 ≤ n
IsString-next s n i c str h e = elim (lt-or-le i n) [
  | inl l ↦ omega arith
  | inr g ↦ let at : i ≡ n = omega arith in absurd (omega (arith, str.stops, ap (byte s) at, e))
]

-- The conversion with the letter `c` at the place `i + 1`.
by_letter :
    (behind i written n : ℕ) (format temp str : List ℕ) (args : List Arg) (c : ℕ)
    → IsString format n
    → i < n
    → byte format i ≡ b'%'
    → byte format (i + 1) ≡ c
    → conversion behind format (state i written temp str args)
      ≡ by_char behind format
          (state (i + 1 + 1) written temp str args)
          c
          (state (i + 1) written temp str args)
unfolding convert
by_letter behind i written n format temp str args c f l percent letter =
    rw (percent, load-ok format (i + 1) (omega (arith, f.inside)), letter) refl

-- The same from 'l' on, with the letter `c` at the place `i + 2`.
by_second :
    (behind i written n : ℕ) (format temp str : List ℕ) (args : List Arg) (c : ℕ)
    → IsString format n
    → i < n
    → byte format i ≡ b'%'
    → byte format (i + 1) ≡ b'l'
    → byte format (i + 2) ≡ c
    → conversion behind format (state i written temp str args) ≡ (
        if c == b'l'
        then convert_ll format (state (i + 1 + 1 + 1) written temp str args)
        else ok (state (i + 1 + 1) written temp str args))
unfolding by_char convert_l
by_second behind i written n format temp str args c f l percent first second =
    let more = IsString-next format n (i + 1) 107 f (omega arith) first in
    let at : byte format (i + 1 + 1) ≡ c = ap (byte format) (omega arith) ∙ second in
    by_letter behind i written n format temp str args b'l' f l percent first
    ∙ rw (load-ok format (i + 1 + 1) (omega (arith, f.inside)), at) refl

by_third :
    (behind i written n : ℕ) (format temp str : List ℕ) (args : List Arg) (c : ℕ)
    → IsString format n
    → i < n
    → byte format i ≡ b'%'
    → byte format (i + 1) ≡ b'l'
    → byte format (i + 2) ≡ b'l'
    → byte format (i + 3) ≡ c
    → conversion behind format (state i written temp str args) ≡ (
        if c == b'x'
        then convert_llx (state (i + 1 + 1 + 1 + 1) written temp str args)
        else ok (state (i + 1 + 1 + 1) written temp str args))
unfolding convert_ll
by_third behind i written n format temp str args c f l percent first second third =
    let more = IsString-next format n (i + 1) 107 f (omega arith) first in
    let more' = IsString-next format n (i + 2) 107 f (omega arith) second in
    let at : byte format (i + 1 + 1 + 1) ≡ c = ap (byte format) (omega arith) ∙ third in
    by_second behind i written n format temp str args b'l' f l percent first second
    ∙ rw (load-ok format (i + 1 + 1 + 1) (omega (arith, f.inside)), at) refl

by_other :
    (behind : ℕ) (format : List ℕ) (p same : Printer) (c : ℕ)
    → IsOther c
    → by_char behind format p c same ≡ ok same
unfolding by_char
by_other behind format p same c o =
    let no_c : (c == b'c') ≡ false = ground (arith, o.no_c) in
    let no_d : (c == b'd') ≡ false = ground (arith, o.no_d) in
    let no_x : (c == b'x') ≡ false = ground (arith, o.no_x) in
    let no_l : (c == b'l') ≡ false = ground (arith, o.no_l) in
    let no_s : (c == b's') ≡ false = ground (arith, o.no_s) in
    rw (no_c, no_d, no_x, no_l, no_s) refl

Moved-nothing :
    (i written z : ℕ) (temp str : List ℕ) (args : List Arg)
    → IsTemp z temp
    → Moved written str i args z [] (ok (state i written temp str args))
Moved-nothing i written z temp str args t =
    Puts-Moved i written z temp str args [] (Puts-nothing (state i written temp str args)) t

pub conversion-Moved :
    (behind n z i z' i' written : ℕ) (format temp str : List ℕ) (args args' : List Arg)
    (text : List ℕ)
    → IsString format n
    → i < n
    → Conversion format z i args z' i' args' text
    → IsTemp z temp
    → 0 < behind
    → written + length text ≤ length str
    → Moved written str i' args' z' text (conversion behind format (state i written temp str args))
unfolding by_char convert_c convert_s
conversion-Moved behind n _ _ _ _ written format temp str _ _ _ f l (none_ z i args e) t free room =
    let no : (byte format i == b'%') ≡ false = ground (arith, e) in
    rw no (Moved-nothing i written z temp str args t)
conversion-Moved behind n _ _ _ _ written format temp str _ _ _ f l (other z i args e o) t free
      room =
    rw
      (
        by_letter behind i written n format temp str args (byte format (i + 1)) f l e refl,
        by_other behind format (state (i + 1 + 1) written temp str args)
            (state (i + 1) written temp str args) (byte format (i + 1)) o,
      )
      (Moved-nothing (i + 1) written z temp str args t)
conversion-Moved behind n _ _ _ _ written format temp str _ _ _ f l (long z i args e a b) t free
      room =
    let no : (byte format (i + 2) == b'l') ≡ false = ground (arith, b) in
    rw (by_second behind i written n format temp str args (byte format (i + 2)) f l e a refl, no)
      (Moved-place (i + 1 + 1) (i + 2) written z str args [] _ (omega arith)
        (Moved-nothing (i + 1 + 1) written z temp str args t))
conversion-Moved behind n _ _ _ _ written format temp str _ _ _ f l (long_long z i args e a b c) t
      free room =
    let no : (byte format (i + 3) == b'x') ≡ false = ground (arith, c) in
    rw (by_third behind i written n format temp str args (byte format (i + 3)) f l e a b refl, no)
      (Moved-place (i + 1 + 1 + 1) (i + 3) written z str args [] _ (omega arith)
        (Moved-nothing (i + 1 + 1 + 1) written z temp str args t))
conversion-Moved behind n _ _ _ _ written format temp str _ _ _ f l (character z i num args e a) t
      free room =
    rw (by_letter behind i written n format temp str (int_arg num ∷ args) b'c' f l e a) (
      Moved-place (i + 1 + 1) (i + 2) written z str args (u8 (to_u32 num) ∷ []) _ (omega arith) (
        Puts-Moved (i + 1 + 1) written z temp str args (u8 (to_u32 num) ∷ [])
          (Puts-put_char (state (i + 1 + 1) written temp str args) (u8 (to_u32 num)) (omega arith))
          t))
conversion-Moved behind n _ _ _ _ written format temp str _ _ _ f l
      (decimal z i num args text e a d small) t free room =
    rw (by_letter behind i written n format temp str (int_arg num ∷ args) b'd' f l e a) (
      Moved-place (i + 1 + 1) (i + 2) written 32 str args text _ (omega arith)
        (convert_d-Moved behind (i + 1 + 1) written z temp str num args text d small t free room))
conversion-Moved behind n _ _ _ _ written format temp str _ _ _ f l (hexadecimal z i num args e a h)
      t free room =
    let size = length-hex_list (to_u32 num) 8 in
    rw (by_letter behind i written n format temp str (int_arg num ∷ args) b'x' f l e a) (
      Moved-place (i + 1 + 1) (i + 2) written 8 str args (hex_list (to_u32 num) 8) _ (omega arith)
        (convert_x-Moved (i + 1 + 1) written z temp str num args h t (omega (arith, size))))
conversion-Moved behind n _ _ _ _ written format temp str _ _ _ f l
      (long_long_hexadecimal z i num args e a b c h) t free room =
    let size = length-hex_list num 16 in
    rw (by_third behind i written n format temp str (uint64_arg num ∷ args) b'x' f l e a b c) (
      Moved-place (i + 1 + 1 + 1 + 1) (i + 4) written 16 str args (hex_list num 16) _ (omega arith)
        (convert_llx-Moved (i + 1 + 1 + 1 + 1) written z temp str num args h t
          (omega (arith, size))))
conversion-Moved behind n _ _ _ _ written format temp str _ _ _ f l (string z i k s args e a q) t
      free room =
    rw (by_letter behind i written n format temp str (text_arg s ∷ args) b's' f l e a) (
      Moved-place (i + 1 + 1) (i + 2) written z str args (chars k 0 s) _ (omega arith) (
        Puts-Moved (i + 1 + 1) written z temp str args (chars k 0 s)
          (Puts-put_text k s (state (i + 1 + 1) written temp str args) q
            (omega (arith, length-chars k 0 s)))
          t))
