-- ===== src/Strings/Printf/Puts.antt =====
-- The stores of `vsprintf`: characters and strings.
use ech_os.Base.{ℕ, zero, suc, ◌+◌, ◌≤◌, ◌<◌, List, [], ◌∷◌, ◌++◌, length, set, Run, ok}
use ech_os.Base.{◌≡◌, refl, ap, ◌∙◌, arith}
use ech_os.Strings.Laws.{byte, load-ok, store-ok, IsString, strlen_lem}
use ech_os.Strings.Printf.{Printer, put_char, put_loop, put_text}
use ech_os.Strings.Printf.Wrote.{chars, length-++, Wrote, nothing-Wrote, set-Wrote, Wrote-++}

-- `p` with `str` for its buffer, and `n` more characters written.
abbrev pub wrote : (p : Printer) → (str : List ℕ) → (n : ℕ) → Printer
wrote p str n = record p { str = str; written = p.written + n }

-- The code writes `text` and does nothing else to the variables of `p`.
pub record Puts (p : Printer) (text : List ℕ) (r : Run Printer) : Type 0 where
  pub str : List ℕ
  pub returns : r ≡ ok (wrote p str (length text))
  pub is_written : Wrote p.str p.written text str

pub Puts-nothing : (p : Printer) → Puts p [] (ok p)
Puts-nothing p = record {
  str = p.str;
  returns = ap (λ k. ok (record p { written = k })) (omega arith);
  is_written = nothing-Wrote p.str p.written;
}

pub Puts-put_char :
    (p : Printer) (c : ℕ) → p.written < length p.str → Puts p (c ∷ []) (put_char p c)
unfolding put_char
Puts-put_char p c h = record {
  str = set p.str p.written c;
  returns = rw (store-ok p.str p.written c h) refl;
  is_written = set-Wrote p.str p.written c h;
}

-- One text behind another.
pub Puts-++ :
    (p : Printer) (a b : List ℕ) (mid : List ℕ) {r : Run Printer}
    → Wrote p.str p.written a mid
    → Puts (wrote p mid (length a)) b r
    → Puts p (a ++ b) r
Puts-++ p a b mid v w = record {
  str = w.str;
  returns =
      w.returns
      ∙ ap (λ k. ok (record p { str = w.str; written = k })) (omega (arith, length-++ a b));
  is_written = Wrote-++ p.str mid w.str a b p.written v w.is_written;
}

Puts-put_loop :
    (left counter : ℕ) (text : List ℕ) (p : Printer)
    → counter + left ≤ length text
    → p.written + left ≤ length p.str
    → Puts p (chars left counter text) (put_loop left counter text p)
unfolding put_loop chars
Puts-put_loop zero counter text p h k = Puts-nothing p
Puts-put_loop (suc left) counter text p h k =
    let c = Puts-put_char p (byte text counter) (omega arith) in
    rw (load-ok text counter (omega arith), c.returns)
      (Puts-++ p (byte text counter ∷ []) (chars left (counter + 1) text) c.str c.is_written (
        Puts-put_loop left (counter + 1) text (wrote p c.str 1) (omega arith)
          (omega (arith, c.is_written.same_length))))

pub Puts-put_text :
    (n : ℕ) (text : List ℕ) (p : Printer)
    → IsString text n
    → p.written + n ≤ length p.str
    → Puts p (chars n 0 text) (put_text text p)
unfolding put_text
Puts-put_text n text p s h =
    rw (strlen_lem text n s) (Puts-put_loop n 0 text p (omega (arith, s.inside)) h)
