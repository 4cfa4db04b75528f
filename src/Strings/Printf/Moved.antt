-- ===== src/Strings/Printf/Moved.antt =====
-- What a conversion of `vsprintf` does to the variables, and the conversions of numbers.
use ech_os.Base.{ℕ, ◌+◌, ◌^◌, ◌==◌, ◌≤◌, ◌<◌, if◌then◌else◌, List, ◌∷◌, length}
use ech_os.Base.{Run, ok, ℤ, magnitude, ◌≡◌, arith, subst}
use ech_os.Strings.Laws.{byte}
use ech_os.Strings.Printf.{Printer, Arg, int_arg, uint64_arg, to_u32, step, convert}
use ech_os.Strings.Printf.{convert_d, convert_x, convert_llx, put_temp}
use ech_os.Strings.Printf.{x32toa, x64toa, put_text}
use ech_os.Strings.Printf.Wrote.{Wrote}
use ech_os.Strings.Printf.Puts.{Puts, Puts-put_text}
use ech_os.Strings.Printf.Numbers.{
  DecimalText, Holds, hex_loop-Holds, itoa-Holds, hex_list, length-hex_list,
}

-- The variables of `vsprintf`.
abbrev pub state : (i written : ℕ) (temp str : List ℕ) → List Arg → Printer
state i written temp str args = record {
  i = i;
  written = written;
  temp = temp;
  str = str;
  args = args;
}

-- `temp` in the middle of a run.
pub record IsTemp (z : ℕ) (temp : List ℕ) : Type 0 where
  pub size : length temp ≡ 32
  pub zeros : (i : ℕ) → z ≤ i → byte temp i ≡ 0

-- The code writes `text`, and leaves `i`, `temp` and the arguments as named.
pub record Moved (written : ℕ) (str : List ℕ) (i : ℕ) (args : List Arg) (z : ℕ) (text : List ℕ)
    (r : Run Printer) : Type 0 where
  pub out : List ℕ
  pub temp : List ℕ
  pub returns : r ≡ ok (state i (written + length text) temp out args)
  pub is_written : Wrote str written text out
  pub is_temp : IsTemp z temp

-- What a round does before it copies a character.
abbrev pub conversion : (behind : ℕ) → (format : List ℕ) → Printer → Run Printer
conversion behind format p =
    if byte format p.i == b'%' then convert behind format (step p) else ok p

pub Puts-Moved :
    (i written z : ℕ) (temp str : List ℕ) (args : List Arg) (text : List ℕ) {r : Run Printer}
    → Puts (state i written temp str args) text r
    → IsTemp z temp
    → Moved written str i args z text r
Puts-Moved i written z temp str args text w t = record {
  out = w.str;
  temp = temp;
  returns = w.returns;
  is_written = w.is_written;
  is_temp = t;
}

-- A text that stands in `temp`.
Puts-put_temp :
    (i written z : ℕ) (temp str : List ℕ) (args : List Arg) (text : List ℕ)
    → Holds text z temp
    → written + length text ≤ length str
    → Moved written str i args z text (put_temp (state i written temp str args))
unfolding put_temp
Puts-put_temp i written z temp str args text h room =
    Puts-Moved i written z temp str args text
      (subst
        (λ t.
          Puts (state i written temp str args) t (put_text temp (state i written temp str args)))
        h.same (Puts-put_text (length text) temp (state i written temp str args) h.is_string room))
      (record { size = h.size; zeros = h.zeros })

pub convert_d-Moved :
    (behind i written z : ℕ) (temp str : List ℕ) (num : ℤ) (args : List Arg) (text : List ℕ)
    → DecimalText num text
    → magnitude num < 2 ^ 31
    → IsTemp z temp
    → 0 < behind
    → written + length text ≤ length str
    → Moved written str i args 32 text
        (convert_d behind (state i written temp str (int_arg num ∷ args)))
unfolding convert_d
convert_d-Moved behind i written z temp str num args text d small t free room =
    let w = itoa-Holds behind num text temp d small t.size free in
    rw w.1 (Puts-put_temp i written 32 w.0 str args text w.2 room)

pub convert_x-Moved :
    (i written z : ℕ) (temp str : List ℕ) (num : ℤ) (args : List Arg)
    → z ≤ 8
    → IsTemp z temp
    → written + 8 ≤ length str
    → Moved written str i args 8
        (hex_list (to_u32 num) 8)
        (convert_x (state i written temp str (int_arg num ∷ args)))
unfolding convert_x x32toa
convert_x-Moved i written z temp str num args h t room =
    let w = hex_loop-Holds 7 (to_u32 num) z temp h (omega arith) t.size t.zeros in
    rw w.1 (
      Puts-put_temp i written 8 w.0 str args (hex_list (to_u32 num) 8) w.2
        (omega (arith, length-hex_list (to_u32 num) 8)))

pub convert_llx-Moved :
    (i written z : ℕ) (temp str : List ℕ) (num : ℕ) (args : List Arg)
    → z ≤ 16
    → IsTemp z temp
    → written + 16 ≤ length str
    → Moved written str i args 16
        (hex_list num 16)
        (convert_llx (state i written temp str (uint64_arg num ∷ args)))
unfolding convert_llx x64toa
convert_llx-Moved i written z temp str num args h t room =
    let w = hex_loop-Holds 15 num z temp h (omega arith) t.size t.zeros in
    rw w.1 (
      Puts-put_temp i written 16 w.0 str args (hex_list num 16) w.2
        (omega (arith, length-hex_list num 16)))
