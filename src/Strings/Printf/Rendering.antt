-- ===== src/Strings/Printf/Rendering.antt =====
-- What `vsprintf` prints, told without its buffers: one conversion at most, and a character.
use ech_os.Base.{ℕ, ◌+◌, ◌^◌, ◌≤◌, ◌<◌, List, [], ◌∷◌, ◌++◌, u8, ℤ, magnitude, ◌≡◌, ◌≢◌}
use ech_os.Strings.Laws.{byte, IsString}
use ech_os.Strings.Printf.{Arg, int_arg, uint64_arg, text_arg, to_u32}
use ech_os.Strings.Printf.Wrote.{chars}
use ech_os.Strings.Printf.Numbers.{DecimalText, hex_list}

-- The letters behind a '%' that start a conversion.
pub record IsOther (c : ℕ) : Type 0 where
  pub no_c : c ≢ b'c'
  pub no_d : c ≢ b'd'
  pub no_x : c ≢ b'x'
  pub no_l : c ≢ b'l'
  pub no_s : c ≢ b's'

-- A conversion at `i`, or none: the text, and the place and the arguments behind it. `temp` is
-- 0 from `z` on before and from `z'` on behind it.
pub data Conversion (format : List ℕ)
    : (z i : ℕ) → List Arg → (z' i' : ℕ) → List Arg → List ℕ → Type 0 where
  none_ :
      (z i : ℕ) (args : List Arg) → byte format i ≢ b'%' → Conversion format z i args z i args []
  other :
      (z i : ℕ) (args : List Arg)
      → byte format i ≡ b'%'
      → IsOther (byte format (i + 1))
      → Conversion format z i args z (i + 1) args []
  long :
      (z i : ℕ) (args : List Arg)
      → byte format i ≡ b'%'
      → byte format (i + 1) ≡ b'l'
      → byte format (i + 2) ≢ b'l'
      → Conversion format z i args z (i + 2) args []
  long_long :
      (z i : ℕ) (args : List Arg)
      → byte format i ≡ b'%'
      → byte format (i + 1) ≡ b'l'
      → byte format (i + 2) ≡ b'l'
      → byte format (i + 3) ≢ b'x'
      → Conversion format z i args z (i + 3) args []
  character :
      (z i : ℕ) (num : ℤ) (args : List Arg)
      → byte format i ≡ b'%'
      → byte format (i + 1) ≡ b'c'
      → Conversion format z i (int_arg num ∷ args) z (i + 2) args (u8 (to_u32 num) ∷ [])
  decimal :
      (z i : ℕ) (num : ℤ) (args : List Arg) (text : List ℕ)
      → byte format i ≡ b'%'
      → byte format (i + 1) ≡ b'd'
      → DecimalText num text
      → magnitude num < 2 ^ 31
      → Conversion format z i (int_arg num ∷ args) 32 (i + 2) args text
  hexadecimal :
      (z i : ℕ) (num : ℤ) (args : List Arg)
      → byte format i ≡ b'%'
      → byte format (i + 1) ≡ b'x'
      → z ≤ 8
      → Conversion format z i (int_arg num ∷ args) 8 (i + 2) args (hex_list (to_u32 num) 8)
  long_long_hexadecimal :
      (z i num : ℕ) (args : List Arg)
      → byte format i ≡ b'%'
      → byte format (i + 1) ≡ b'l'
      → byte format (i + 2) ≡ b'l'
      → byte format (i + 3) ≡ b'x'
      → z ≤ 16
      → Conversion format z i (uint64_arg num ∷ args) 16 (i + 4) args (hex_list num 16)
  string :
      (z i k : ℕ) (s : List ℕ) (args : List Arg)
      → byte format i ≡ b'%'
      → byte format (i + 1) ≡ b's'
      → IsString s k
      → Conversion format z i (text_arg s ∷ args) z (i + 2) args (chars k 0 s)

-- The text of the format from `i` on. Behind a conversion one character is copied as it stands, be
-- it '%' or the end of the format.
pub data Rendering (format : List ℕ) (n : ℕ) : (z i : ℕ) → List Arg → List ℕ → Type 0 where
  end_ : (z i : ℕ) (args : List Arg) → n ≤ i → Rendering format n z i args []
  round :
      (z i z' i' : ℕ) (args args' : List Arg) (text rest : List ℕ)
      → i < n
      → Conversion format z i args z' i' args' text
      → Rendering format n z' (i' + 1) args' rest
      → Rendering format n z i args (text ++ byte format i' ∷ rest)
