-- ===== src/Console/Margins.antt =====
-- The text of `ssfn_printf`, and its cursor.
use ech_os.Base.{Bool, true, ◌≢◌, ℕ, suc, ◌+◌, ◌-◌, ◌^◌, ◌≤◌, ◌<◌, ltb, u16, Bool-cases, inl, inr}
use ech_os.Base.{
  List, [], ◌∷◌, replicate, Run, ok, ◌≡◌, refl, ap, ◌∙◌, arith, length, length-replicate,
}
use ech_os.Kernel.Colonel.{Framebuffer}
use ech_os.Strings.Laws.{byte, IsString, load-ok}
use ech_os.Strings.Printf.{Arg}
use ech_os.Strings.Printf.Rendering.{Rendering}
use ech_os.Strings.Printf.Rounds.{vsprintf_lem}
use ech_os.Console.{
  Destination, Console, Renderer, extend_x, to_unicode, right_of, wrap, at_left, at_top, ssfn_put,
  put_output, ssfn_printf,
}

-- The cursor is between the left and the right margin, and not above the top one.
pub record InMargins (fb : Framebuffer) (d : Destination) : Type 0 where
  pub left : fb.margin ≤ extend_x d.x
  pub right : extend_x d.x ≤ fb.width - fb.margin - 5
  pub top : fb.margin ≤ extend_x d.y

-- A screen with room between margins that an `int16_t` holds.
pub record HasRoom (fb : Framebuffer) : Type 0 where
  pub small : fb.margin < 2 ^ 15
  pub wide : fb.margin + fb.margin + 5 ≤ fb.width
  pub fits : fb.width < 2 ^ 64

-- What `ssfn_putc` asks for before it draws: a font, which `magic` tells by its first bytes, and a
-- screen.
pub record IsReady {ℓ} {Pixels : Type ℓ} (magic : (src : ℕ) → Bool) (s : Console Pixels)
    : Type 0 where
  pub font : s.src ≢ 0
  pub signed : magic s.src ≡ true
  pub screen : s.dst.ptr ≢ 0
  pub pitch : s.dst.p ≢ 0

-- What the console relies on: given a font and a screen, a newline goes back to column 0, and no
-- character takes the font or the screen away.
pub record IsRenderer {ℓ} {Pixels : Type ℓ} (magic : (src : ℕ) → Bool) (ssfn_putc : Renderer Pixels)
    : Type ℓ where
  pub newline : (s : Console Pixels) → IsReady magic s → (ssfn_putc s b'\n').dst.x ≡ 0
  pub stays : (s : Console Pixels) (c : ℕ) → IsReady magic s → IsReady magic (ssfn_putc s c)

-- The text, character by character.
unfoldable pub draw_text {ℓ} :
    {Pixels : Type ℓ}
    → Renderer Pixels
    → Framebuffer
    → (text : List ℕ) → Console Pixels
    → Console Pixels
unfolding ssfn_put
draw_text ssfn_putc fb [] s = s
draw_text ssfn_putc fb (c ∷ text) s = draw_text ssfn_putc fb text (ssfn_put ssfn_putc fb c s)

module _ {ℓ} {Pixels : Type ℓ} (ssfn_putc : Renderer Pixels) (fb : Framebuffer)
    (magic : (src : ℕ) → Bool) (renderer : IsRenderer magic ssfn_putc) (room : HasRoom fb) where
  wrapped :
      (s : Console Pixels)
      → IsReady magic s
      → extend_x (wrap ssfn_putc fb s).dst.x ≤ fb.width - fb.margin - 5
  unfolding wrap
  wrapped s ready = elim (Bool-cases (ltb (right_of fb) (extend_x s.dst.x))) [
    | inl e ↦ let home = renderer.newline s ready in rw (e, home) (omega arith)
    | inr e ↦ rw e (ground (arith, room.wide, room.fits, e))
  ]

  wrap-IsReady : (s : Console Pixels) → IsReady magic s → IsReady magic (wrap ssfn_putc fb s)
  unfolding wrap
  wrap-IsReady s ready = elim (Bool-cases (ltb (right_of fb) (extend_x s.dst.x))) [
    | inl e ↦ rw e (renderer.stays s b'\n' ready)
    | inr e ↦ rw e ready
  ]

  -- The cursor is of no account.
  moved :
      (s : Console Pixels) (x y : ℕ)
      → IsReady magic s
      → IsReady magic (record s { dst = record s.dst { x = x; y = y } })
  moved s x y ready = record {
    font = ready.font;
    signed = ready.signed;
    screen = ready.screen;
    pitch = ready.pitch;
  }

  at_left-IsReady : (s : Console Pixels) → IsReady magic s → IsReady magic (at_left fb s)
  unfolding at_left
  at_left-IsReady s ready = elim (Bool-cases (ltb (extend_x s.dst.x) fb.margin)) [
    | inl e ↦ rw e (moved s (u16 fb.margin) s.dst.y ready)
    | inr e ↦ rw e ready
  ]

  at_top-IsReady : (s : Console Pixels) → IsReady magic s → IsReady magic (at_top fb s)
  unfolding at_top
  at_top-IsReady s ready = elim (Bool-cases (ltb (extend_x s.dst.y) fb.margin)) [
    | inl e ↦ rw e (moved s s.dst.x (u16 fb.margin) ready)
    | inr e ↦ rw e ready
  ]

  left_margin :
      (s : Console Pixels)
      → extend_x s.dst.x ≤ fb.width - fb.margin - 5
      → (fb.margin ≤ extend_x (at_left fb s).dst.x)
        × (extend_x (at_left fb s).dst.x ≤ fb.width - fb.margin - 5)
  unfolding at_left
  left_margin s h = elim (Bool-cases (ltb (extend_x s.dst.x) fb.margin)) [
    | inl e ↦
        let same : extend_x (u16 fb.margin) ≡ fb.margin = ground (arith, room.small) in
        rw (e, same) (omega arith, omega (arith, room.wide))
    | inr e ↦ rw e (ground arith, h)
  ]

  top_margin : (s : Console Pixels) → fb.margin ≤ extend_x (at_top fb s).dst.y
  unfolding at_top
  top_margin s = elim (Bool-cases (ltb (extend_x s.dst.y) fb.margin)) [
    | inl e ↦
        let same : extend_x (u16 fb.margin) ≡ fb.margin = ground (arith, room.small) in
        rw (e, same) (omega arith)
    | inr e ↦ rw e (ground arith)
  ]

  same_column : (s : Console Pixels) → (at_top fb s).dst.x ≡ s.dst.x
  unfolding at_top
  same_column s = elim (Bool-cases (ltb (extend_x s.dst.y) fb.margin)) [
    | inl e ↦ rw e refl
    | inr e ↦ rw e refl
  ]

  ssfn_put-IsReady :
      (c : ℕ) (s : Console Pixels) → IsReady magic s → IsReady magic (ssfn_put ssfn_putc fb c s)
  unfolding ssfn_put
  ssfn_put-IsReady c s ready =
      at_top-IsReady (at_left fb (wrap ssfn_putc fb (ssfn_putc s (to_unicode c)))) (
        at_left-IsReady (wrap ssfn_putc fb (ssfn_putc s (to_unicode c)))
          (wrap-IsReady (ssfn_putc s (to_unicode c)) (renderer.stays s (to_unicode c) ready)))

  ssfn_put-InMargins :
      (c : ℕ) (s : Console Pixels) → IsReady magic s → InMargins fb (ssfn_put ssfn_putc fb c s).dst
  unfolding ssfn_put
  ssfn_put-InMargins c s ready =
      let placed = at_left fb (wrap ssfn_putc fb (ssfn_putc s (to_unicode c))) in
      let column =
        left_margin (wrap ssfn_putc fb (ssfn_putc s (to_unicode c)))
          (wrapped (ssfn_putc s (to_unicode c)) (renderer.stays s (to_unicode c) ready)) in
      record {
        left = rw (same_column placed) (column.0);
        right = rw (same_column placed) (column.1);
        top = top_margin placed;
      }

  draw_text-IsReady :
      (text : List ℕ) (s : Console Pixels)
      → IsReady magic s
      → IsReady magic (draw_text ssfn_putc fb text s)
  unfolding draw_text
  draw_text-IsReady [] s ready = ready
  draw_text-IsReady (c ∷ text) s ready =
      draw_text-IsReady text (ssfn_put ssfn_putc fb c s) (ssfn_put-IsReady c s ready)

  -- The cursor stays where it is without text, and is within the margins behind any.
  draw_text-InMargins :
      (text : List ℕ) (s : Console Pixels)
      → IsReady magic s
      → InMargins fb s.dst
      → InMargins fb (draw_text ssfn_putc fb text s).dst
  unfolding draw_text
  draw_text-InMargins [] s ready h = h
  draw_text-InMargins (c ∷ text) s ready h =
      draw_text-InMargins text (ssfn_put ssfn_putc fb c s) (ssfn_put-IsReady c s ready)
        (ssfn_put-InMargins c s ready)

-- What the characters of a buffer print from `i` on.
put_output-draw_text {ℓ} :
    {Pixels : Type ℓ} (ssfn_putc : Renderer Pixels) (fb : Framebuffer) (i : ℕ)
    (output text : List ℕ) (s : Console Pixels)
    → i + length text ≤ length output
    → ((j : ℕ) → j < length text → byte output (i + j) ≡ byte text j)
    → put_output ssfn_putc fb (length text) i output s ≡ ok (draw_text ssfn_putc fb text s)
unfolding put_output draw_text
put_output-draw_text ssfn_putc fb i output [] s room same = refl
put_output-draw_text ssfn_putc fb i output (c ∷ text) s room same =
    let first : byte output i ≡ c = ap (byte output) (omega arith) ∙ same 0 (omega arith) in
    rw (load-ok output i (omega arith), first)
      (put_output-draw_text ssfn_putc fb (i + 1) output text (ssfn_put ssfn_putc fb c s)
        (omega arith) (λ j h. ap (byte output) (omega arith) ∙ same (suc j) (omega arith)))

-- What `ssfn_printf` does where `text` is what its format prints.
pub record IsPrinted {ℓ} {Pixels : Type ℓ} (magic : (src : ℕ) → Bool) (ssfn_putc : Renderer Pixels)
    (fb : Framebuffer) (text : List ℕ) (s : Console Pixels) (r : Run (ℕ × Console Pixels))
    : Type ℓ where
  pub after : Console Pixels
  pub returns : r ≡ ok (length text + 1, after)
  pub drawn : after ≡ draw_text ssfn_putc fb text s
  pub ready : IsReady magic after
  pub margins : InMargins fb s.dst → InMargins fb after.dst

-- With a renderer that, given a font and a screen, goes back to column 0 on a newline and keeps
-- both, from a console that has both, on a screen with room between its margins, and for a text of
-- 1024 characters at most, `ssfn_printf` returns: it draws the text that `Rendering` tells of the
-- format and the arguments, character by character, returns one more than their number, leaves the
-- console with a font and a screen, and leaves the cursor within the margins if it was there.
pub ssfn_printf_lem {ℓ} :
    {Pixels : Type ℓ} (magic : (src : ℕ) → Bool) (ssfn_putc : Renderer Pixels) (behind n : ℕ)
    (fb : Framebuffer) (format : List ℕ) (values : List Arg) (text : List ℕ) (s : Console Pixels)
    → IsRenderer magic ssfn_putc
    → IsReady magic s
    → HasRoom fb
    → IsString format n
    → Rendering format n 0 0 values text
    → length text ≤ 1024
    → 0 < behind
    → IsPrinted magic ssfn_putc fb text s (ssfn_printf ssfn_putc behind fb format values s)
unfolding ssfn_printf
ssfn_printf_lem magic ssfn_putc behind n fb format values text s renderer ready room f r short
      free =
    let size = length-replicate {A = ℕ} 1024 0 in
    let d =
      vsprintf_lem behind n (replicate 1024 0) format values text f r (omega (arith, size, short))
        free in
    let put =
      put_output-draw_text ssfn_putc fb 0 d.out text s
        (omega (arith, d.is_written.same_length, size, short)) (λ j h. d.is_written.inside j h) in
    rw (d.returns, put)
      (record {
        after = draw_text ssfn_putc fb text s;
        returns = refl;
        drawn = refl;
        ready = draw_text-IsReady ssfn_putc fb magic renderer room text s ready;
        margins = λ h. draw_text-InMargins ssfn_putc fb magic renderer room text s ready h;
      })
