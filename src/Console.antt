-- ===== src/Console.antt =====
-- kernel/drivers/ssfn_fb.c: the console, over the font library's renderer as a parameter.
pub mod Margins
use ech_os.Base.{ℕ, zero, suc, ◌+◌, ◌-◌, ◌*◌, ◌^◌, ltb, if◌then◌else◌, u16, u64, sub64}
use ech_os.Base.{List, replicate, Run, ok, ◌>>=◌}
use ech_os.Kernel.Colonel.{Framebuffer}
use ech_os.Strings.{load}
use ech_os.Strings.Printf.{Arg, vsprintf}

-- `ssfn_dst`, as far as the kernel sets it. `x` and `y` are the bits of an `int16_t`.
pub record Destination : Type 0 where
  pub ptr : ℕ
  pub p : ℕ
  pub x : ℕ
  pub y : ℕ
  pub fg : ℕ
  pub bg : ℕ

-- The library's variables `ssfn_src` and `ssfn_dst`, and what else it draws on.
pub record Console {ℓ} (Pixels : Type ℓ) : Type ℓ where
  pub src : ℕ
  pub dst : Destination
  pub pixels : Pixels

-- `ssfn_putc` without its result, which the kernel ignores.
abbrev pub Renderer {ℓ} : Type ℓ → Type ℓ
Renderer Pixels = Console Pixels → (unicode : ℕ) → Console Pixels

-- An `int16_t` that is compared with a `size_t`.
abbrev pub extend_x : ℕ → ℕ
extend_x x = if ltb x (2 ^ 15) then x else x + (2 ^ 64 - 2 ^ 16)

-- A `char` that is passed for a `uint32_t`.
abbrev pub to_unicode : ℕ → ℕ
to_unicode c = if ltb c 0x80 then c else c + (2 ^ 32 - 2 ^ 8)

unfoldable pub ssfn_set_color {ℓ} :
    {Pixels : Type ℓ} (foreground background : ℕ) → Console Pixels → Console Pixels
ssfn_set_color foreground background s = record s {
  dst = record s.dst { fg = foreground; bg = background };
}

unfoldable pub ssfn_setup {ℓ} : {Pixels : Type ℓ} → Framebuffer → Console Pixels → Console Pixels
unfolding ssfn_set_color
ssfn_setup fb s = ssfn_set_color 0xffff_ffff 0 (record s {
  src = fb.font;
  dst = record s.dst {
    ptr = fb.buffer;
    p = u16 (u64 (4 * fb.pixels_per_scanline));
    x = u16 fb.margin;
    y = u16 fb.margin;
  };
})

-- The last column where a character may begin.
abbrev pub right_of : Framebuffer → ℕ
right_of fb = sub64 (sub64 fb.width fb.margin) 5

unfoldable pub wrap {ℓ} :
    {Pixels : Type ℓ} → Renderer Pixels → Framebuffer → Console Pixels → Console Pixels
wrap ssfn_putc fb s = if ltb (right_of fb) (extend_x s.dst.x) then ssfn_putc s b'\n' else s

unfoldable pub at_left {ℓ} : {Pixels : Type ℓ} → Framebuffer → Console Pixels → Console Pixels
at_left fb s =
    if ltb (extend_x s.dst.x) fb.margin
    then record s { dst = record s.dst { x = u16 fb.margin } }
    else s

unfoldable pub at_top {ℓ} : {Pixels : Type ℓ} → Framebuffer → Console Pixels → Console Pixels
at_top fb s =
    if ltb (extend_x s.dst.y) fb.margin
    then record s { dst = record s.dst { y = u16 fb.margin } }
    else s

unfoldable pub ssfn_put {ℓ} :
    {Pixels : Type ℓ} → Renderer Pixels → Framebuffer → (c : ℕ) → Console Pixels → Console Pixels
unfolding wrap at_left at_top
ssfn_put ssfn_putc fb c s = at_top fb (at_left fb (wrap ssfn_putc fb (ssfn_putc s (to_unicode c))))

-- The loop of `ssfn_printf`, from character `i` on, with `left` to go.
unfoldable pub put_output {ℓ} :
    {Pixels : Type ℓ}
    → Renderer Pixels
    → Framebuffer
    → (left i : ℕ) → (output : List ℕ) → Console Pixels
    → Run (Console Pixels)
unfolding ssfn_put load
put_output ssfn_putc fb zero i output s = ok s
put_output ssfn_putc fb (suc left) i output s = do
  c ← load output i
  put_output ssfn_putc fb left (i + 1) output (ssfn_put ssfn_putc fb c s)

-- What it returns, and the console. `behind` is that of `vsprintf`.
unfoldable pub ssfn_printf {ℓ} :
    {Pixels : Type ℓ}
    → Renderer Pixels
    → (behind : ℕ) → Framebuffer
    → (format : List ℕ) → List Arg
    → Console Pixels
    → Run (ℕ × Console Pixels)
unfolding put_output vsprintf
ssfn_printf ssfn_putc behind fb format values s = do
  (written, output) ← vsprintf behind (replicate 1024 0) format values
  s' ← put_output ssfn_putc fb written 0 output s
  ok (written + 1, s')
