-- ===== src/Strings/Printf.antt =====
-- lib/stdio/vsprintf.c.
pub mod Wrote
pub mod Puts
pub mod Numbers
pub mod Rendering
pub mod Moved
pub mod Conversions
pub mod Rounds
use ech_os.Base.{
  ℕ, zero, suc, ◌+◌, ◌-◌, ◌*◌, ◌/◌, ◌%◌, ◌^◌, ◌==◌, if◌then◌else◌, ltb, bit_and, u8, u32,
}
use ech_os.Base.{List, ◌∷◌, replicate, Run, ok, fault, ◌>>=◌, ℤ, pos, negsuc}
use ech_os.Strings.{load, store, strlen}
use ech_os.Strings.Itoa.{itoa}

-- `hex_chars[digit]`.
abbrev pub hex_char : ℕ → ℕ
hex_char digit = if ltb digit 10 then 48 + digit else 55 + digit

-- The loop of `x32toa` and `x64toa` with `left` digits of 4 bits above the last, and the store behind
-- it; `at` is `pos`.
unfoldable pub hex_loop : (left at num : ℕ) → List ℕ → Run (List ℕ)
unfolding store
hex_loop zero at num str = store str at (hex_char (bit_and num 0xf))
hex_loop (suc left) at num str = do
  str' ← store str at (hex_char (bit_and (num / 2 ^ (4 * suc left)) 0xf))
  hex_loop left (at + 1) num str'

unfoldable pub x32toa : (num : ℕ) → List ℕ → Run (List ℕ)
unfolding hex_loop
x32toa num str = hex_loop 7 0 num str

unfoldable pub x64toa : (num : ℕ) → List ℕ → Run (List ℕ)
unfolding hex_loop
x64toa num str = hex_loop 15 0 num str

-- An argument behind the format, by the type that it has.
pub data Arg : Type 0 where
  int_arg : ℤ → Arg
  uint64_arg : ℕ → Arg
  text_arg : List ℕ → Arg

-- The variables of `vsprintf`, and what is left of `arg`.
pub record Printer : Type 0 where
  pub i : ℕ
  pub written : ℕ
  pub temp : List ℕ
  pub str : List ℕ
  pub args : List Arg

-- The bits of an `int`.
abbrev pub to_u32 : ℤ → ℕ
to_u32 (pos n) = u32 n
to_u32 (negsuc n) = u32 (2 ^ 32 - 1 - n % 2 ^ 32)

-- `va_arg` of one type; a fault where the next argument has another type, or there is none.
abbrev pub next_int : Printer → Run (ℤ × List Arg)
next_int p = elim p.args [ int_arg n ∷ args ↦ ok (n, args) | _ ↦ fault ]

abbrev pub next_u64 : Printer → Run (ℕ × List Arg)
next_u64 p = elim p.args [ uint64_arg n ∷ args ↦ ok (n, args) | _ ↦ fault ]

abbrev pub next_text : Printer → Run (List ℕ × List Arg)
next_text p = elim p.args [ text_arg s ∷ args ↦ ok (s, args) | _ ↦ fault ]

-- `str[written] = c; written++`.
unfoldable pub put_char : Printer → (c : ℕ) → Run Printer
unfolding store
put_char p c = do
  str ← store p.str p.written c
  ok (record p { str = str; written = p.written + 1 })

-- `for(counter = 0; counter < strlen(text); counter++)`, with `left` characters to go.
unfoldable pub put_loop : (left counter : ℕ) → (text : List ℕ) → Printer → Run Printer
unfolding load put_char
put_loop zero counter text p = ok p
put_loop (suc left) counter text p = do
  c ← load text counter
  p' ← put_char p c
  put_loop left (counter + 1) text p'

unfoldable pub put_text : (text : List ℕ) → Printer → Run Printer
unfolding put_loop strlen
put_text text p = do n ← strlen text; put_loop n 0 text p

-- The text that a conversion leaves in `temp`, printed.
unfoldable pub put_temp : Printer → Run Printer
unfolding put_text
put_temp p = put_text p.temp p

-- The cases of the first `switch`, with `i` behind the character.
unfoldable pub convert_c : Printer → Run Printer
unfolding put_char
convert_c p = do (n, args) ← next_int p; put_char (record p { args = args }) (u8 (to_u32 n))

unfoldable pub convert_d : (behind : ℕ) → Printer → Run Printer
unfolding itoa put_temp
convert_d behind p = do
  (n, args) ← next_int p
  temp ← itoa behind n p.temp 10
  put_temp (record p { args = args; temp = temp })

unfoldable pub convert_x : Printer → Run Printer
unfolding x32toa put_temp
convert_x p = do
  (n, args) ← next_int p
  temp ← x32toa (to_u32 n) p.temp
  put_temp (record p { args = args; temp = temp })

unfoldable pub convert_llx : Printer → Run Printer
unfolding x64toa put_temp
convert_llx p = do
  (n, args) ← next_u64 p
  temp ← x64toa n p.temp
  put_temp (record p { args = args; temp = temp })

unfoldable pub convert_s : Printer → Run Printer
unfolding put_text
convert_s p = do (text, args) ← next_text p; put_text text (record p { args = args })

abbrev pub step : Printer → Printer
step p = record p { i = p.i + 1 }

-- The innermost and the middle `switch`, with `i` at their character.
unfoldable pub convert_ll : (format : List ℕ) → Printer → Run Printer
unfolding load convert_llx
convert_ll format p = do c ← load format p.i; if c == b'x' then convert_llx (step p) else ok p

unfoldable pub convert_l : (format : List ℕ) → Printer → Run Printer
unfolding load convert_ll
convert_l format p = do c ← load format p.i; if c == b'l' then convert_ll format (step p) else ok p

-- The cases of the first `switch` for the character `c`; `p` has `i` behind it, `same` at it.
unfoldable pub by_char :
    (behind : ℕ) → (format : List ℕ) → (p : Printer) → (c : ℕ) → (same : Printer) → Run Printer
unfolding convert_c convert_d convert_x convert_l convert_s
by_char behind format p c same =
    if c == b'c'
    then convert_c p
    else (if c == b'd'
        then convert_d behind p
        else (if c == b'x'
            then convert_x p
            else (if c == b'l'
                then convert_l format p
                else (if c == b's' then convert_s p else ok same))))

-- The first `switch`, with `i` behind the '%'.
unfoldable pub convert : (behind : ℕ) → (format : List ℕ) → Printer → Run Printer
unfolding load by_char
convert behind format p = do c ← load format p.i; by_char behind format (step p) c p

-- The body of the loop: the character at `i` is copied, and where it is '%', the character behind the
-- conversion.
unfoldable pub print_round : (behind : ℕ) → (format : List ℕ) → Printer → Run Printer
unfolding load convert put_char
print_round behind format p = do
  c ← load format p.i
  p' ← (if c == b'%' then convert behind format (step p) else ok p)
  c' ← load format p'.i
  p'' ← put_char p' c'
  ok (step p'')

-- The loop. Every round moves `i`, so the format's length and one is enough rounds.
unfoldable pub print_loop : (rounds behind n : ℕ) → (format : List ℕ) → Printer → Run Printer
unfolding print_round
print_loop zero behind n format p = fault
print_loop (suc rounds) behind n format p =
    let rest = print_loop rounds behind n format in
    if ltb p.i n then (do p' ← print_round behind format p; rest p') else ok p

-- The characters written, and the buffer. `behind` is that of `reverse_string`.
unfoldable pub vsprintf : (behind : ℕ) → (str format : List ℕ) → List Arg → Run (ℕ × List ℕ)
unfolding print_loop strlen
vsprintf behind str format args = do
  n ← strlen format
  p ←
      print_loop (n + 1) behind n format
        (record { i = 0; written = 0; temp = replicate 32 0; str = str; args = args })
  ok (p.written, p.str)
