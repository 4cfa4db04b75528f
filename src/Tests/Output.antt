-- ===== src/Tests/Output.antt =====
-- Runs of the number printing and of formatted output on concrete buffers.
use ech_os.Base.{zero, suc, ◌++◌, ◌<◌, ◌≢◌}
use ech_os.Strings.Laws.{IsString}
use ech_os.Strings.Itoa.Digits.{DigitCount, drop_digits}
use ech_os.Strings.Printf.{text_arg}
use ech_os.Strings.Printf.Wrote.{chars}
use ech_os.Strings.Printf.Numbers.{digit_list, of_negative}
use ech_os.Base.{◌+◌, ◌==◌, if◌then◌else◌, u16}
use ech_os.Kernel.Colonel.{Framebuffer}
use ech_os.Console.{Console, Renderer, ssfn_setup, ssfn_printf}
use ech_os.Console.Margins.{IsPrinted, IsReady, IsRenderer, draw_text, ssfn_printf_lem}
use ech_os.Strings.Printf.Rendering.{Rendering, round, end_, decimal, string}
use ech_os.Strings.Printf.Rounds.{Formatted, vsprintf_lem}
use ech_os.Base.{
  Bool, Bool-cases, inl, inr, false, true, ℕ, List, [], ◌∷◌, ok, fault, replicate, pos, negsuc, ◌≡◌,
  refl, arith,
}
use ech_os.Strings.Laws.{byte}
use ech_os.Strings.Itoa.Decimal.{Decimal, itoa_lem}
use ech_os.Strings.Itoa.Reverse.{reverse_string_overflow}
use ech_os.Tests.Strings.{name, name-IsString}
use ech_os.Strings.Itoa.{itoa, reverse_string}
use ech_os.Strings.Printf.{Arg, int_arg, vsprintf}

minus_42 : itoa 1 (negsuc 41) (replicate 5 9) 10 ≡ ok (45 ∷ 52 ∷ 50 ∷ 0 ∷ 9 ∷ [])
unfolding itoa
minus_42 = refl

zero_text : itoa 1 (pos 0) (replicate 5 9) 10 ≡ ok (48 ∷ 0 ∷ 9 ∷ 9 ∷ 9 ∷ [])
unfolding itoa
zero_text = refl

-- In base 16 the digit 10 is written as the character behind '9'.
sixteen : itoa 1 (pos 26) (replicate 5 9) 16 ≡ ok (49 ∷ 58 ∷ 0 ∷ 9 ∷ 9 ∷ [])
unfolding itoa
sixteen = refl

abbrev args : List Arg
args = int_arg (pos 7) ∷ int_arg (pos 8) ∷ []

-- "%d, %d." with 7 and 8.
two_numbers :
    vsprintf 1 (replicate 8 0) (37 ∷ 100 ∷ 44 ∷ 32 ∷ 37 ∷ 100 ∷ 46 ∷ 0 ∷ []) args
    ≡ ok (5, 55 ∷ 44 ∷ 32 ∷ 56 ∷ 46 ∷ 0 ∷ 0 ∷ 0 ∷ [])
unfolding vsprintf
two_numbers = refl

-- "%d%d": the second '%' is copied, and no conversion is seen.
no_separator :
    vsprintf 1 (replicate 8 0) (37 ∷ 100 ∷ 37 ∷ 100 ∷ 0 ∷ []) args
    ≡ ok (3, 55 ∷ 37 ∷ 100 ∷ 0 ∷ 0 ∷ 0 ∷ 0 ∷ 0 ∷ [])
unfolding vsprintf
no_separator = refl

-- "%d": the end of the format is copied and counted.
end_counted : vsprintf 1 (replicate 4 9) (37 ∷ 100 ∷ 0 ∷ []) args ≡ ok (2, 55 ∷ 0 ∷ 9 ∷ 9 ∷ [])
unfolding vsprintf
end_counted = refl

abbrev wide : List ℕ
wide = replicate 12 9

itoa_example : Decimal true 42 wide (itoa 1 (negsuc 41) wide 10)
itoa_example =
    itoa_lem 1 (negsuc 41) wide (omega arith) (omega arith) (omega arith) (omega arith)
      (omega arith)

overflow_example : reverse_string 0 name ≡ fault
overflow_example = reverse_string_overflow 2 name name-IsString (omega arith)

-- "%d:%s".
abbrev greeting : List ℕ
greeting = 37 ∷ 100 ∷ 58 ∷ 37 ∷ 115 ∷ 0 ∷ []

abbrev greeting_args : List Arg
greeting_args = int_arg (negsuc 41) ∷ text_arg name ∷ []

-- "-42:os" and the end of the format.
abbrev greeting_text : List ℕ
greeting_text = (b'-' ∷ digit_list 42 2) ++ b':' ∷ (chars 2 0 name ++ 0 ∷ [])

greeting_bytes : greeting_text ≡ 45 ∷ 52 ∷ 50 ∷ 58 ∷ 111 ∷ 115 ∷ 0 ∷ []
unfolding digit_list chars drop_digits
greeting_bytes = refl

greeting-IsString : IsString greeting 5
greeting-IsString = record { inside = omega arith; stops = refl; before = λ i h. before i h }
  where
    before : (i : ℕ) → i < 5 → byte greeting i ≢ 0
    before zero h = omega arith
    before (suc zero) h = omega arith
    before (suc (suc zero)) h = omega arith
    before (suc (suc (suc zero))) h = omega arith
    before (suc (suc (suc (suc zero)))) h = omega arith
    before (suc (suc (suc (suc (suc i))))) h = absurd (omega arith)

count_42 : DigitCount 42 2
unfolding drop_digits
count_42 = record { all = refl; fewest = λ j h. fewest j h }
  where
    fewest : (j : ℕ) → j < 2 → drop_digits 42 j ≢ 0
    fewest zero h = omega arith
    fewest (suc zero) h = omega arith
    fewest (suc (suc j)) h = absurd (omega arith)

greeting-Rendering : Rendering greeting 5 0 0 greeting_args greeting_text
greeting-Rendering =
    round 0 0 32 2 greeting_args (text_arg name ∷ []) (b'-' ∷ digit_list 42 2)
      (chars 2 0 name ++ 0 ∷ []) (omega arith)
      (decimal 0 0 (negsuc 41) (text_arg name ∷ []) (b'-' ∷ digit_list 42 2) refl refl
        (of_negative 41 2 count_42) (omega arith))
      (round 32 3 32 5 (text_arg name ∷ []) [] (chars 2 0 name) [] (omega arith)
        (string 32 3 2 name [] refl refl name-IsString) (end_ 32 6 [] (omega arith)))

vsprintf_example : Formatted wide greeting_text (vsprintf 1 wide greeting greeting_args)
unfolding digit_list chars
vsprintf_example =
    vsprintf_lem 1 5 wide greeting greeting_args greeting_text greeting-IsString greeting-Rendering
      (omega arith) (omega arith)

-- A renderer with characters of 8 by 16 pixels, which lists what it draws.
abbrev pen : Renderer (List ℕ)
pen s c = record s {
  dst =
      if c == b'\n'
      then record s.dst { x = 0; y = u16 (s.dst.y + 16) }
      else record s.dst { x = u16 (s.dst.x + 8) };
  pixels = c ∷ s.pixels;
}

-- Five characters wide, so that the text goes over the margin.
abbrev narrow : Framebuffer
narrow = record {
  width = 65;
  height = 600;
  pixels_per_scanline = 80;
  margin = 10;
  buffer = 0x8000_0000;
  font = 0x10_0000;
  font_size = 0;
}

abbrev blank : Console (List ℕ)
blank = record {
  src = 0;
  dst = record { ptr = 0; p = 0; x = 0; y = 0; fg = 0; bg = 0 };
  pixels = [];
}

-- Every font but one at 0 has its first bytes.
abbrev any_font : (src : ℕ) → Bool
any_font src = if src == 0 then false else true

pen-IsRenderer : IsRenderer any_font pen
pen-IsRenderer = record {
  newline = λ s _. refl;
  stays = λ s c r. elim (Bool-cases (c == b'\n')) [
    | inl e ↦ rw e (record { font = r.font; signed = r.signed; screen = r.screen; pitch = r.pitch })
    | inr e ↦ rw e (record { font = r.font; signed = r.signed; screen = r.screen; pitch = r.pitch })
  ];
}

blank-IsReady : IsReady any_font (ssfn_setup narrow blank)
unfolding ssfn_setup
blank-IsReady = record {
  font = omega arith;
  signed = refl;
  screen = omega arith;
  pitch = omega arith;
}

console_example :
    IsPrinted any_font pen narrow greeting_text
      (ssfn_setup narrow blank)
      (ssfn_printf pen 1 narrow greeting greeting_args (ssfn_setup narrow blank))
unfolding digit_list chars
console_example =
    ssfn_printf_lem any_font pen 1 5 narrow greeting greeting_args greeting_text
      (ssfn_setup narrow blank) pen-IsRenderer blank-IsReady
      (record { small = omega arith; wide = omega arith; fits = omega arith }) greeting-IsString
      greeting-Rendering (omega arith) (omega arith)

-- The cursor behind the sixth character has left the margin and goes to the next line.
next_line :
    (draw_text pen narrow (49 ∷ 50 ∷ 51 ∷ 52 ∷ 53 ∷ 54 ∷ []) (ssfn_setup narrow blank)).dst.y ≡ 26
unfolding draw_text ssfn_setup
next_line = refl
