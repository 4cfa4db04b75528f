-- ===== src/Paging/Span.antt =====
-- Ranges of addresses, a page at a time.
use ech_os.Base.{ℕ, ◌+◌, ◌-◌, ◌*◌, ◌/◌, ◌%◌, ◌^◌, ◌≤◌, ◌<◌, ◌&&◌, leb, ltb, Bool, true, false}
use ech_os.Base.{◌≡◌, ◌≢◌, arith, ◌⊎◌}
use ech_os.Paging.Translate.{stretch}

-- The 48 bits of an address that the processor translates.
abbrev pub low48 : ℕ → ℕ
low48 w = w % 2 ^ 48

-- `w` lies in a page from `first` on that begins before `end`.
abbrev pub in_pages : (first end w : ℕ) → Bool
in_pages first end w = leb first (low48 w) && ltb (low48 w / 4096 * 4096) end

pub in_pages-true :
    (first end w : ℕ)
    → in_pages first end w ≡ true
    → (first ≤ low48 w) × (low48 w / 4096 * 4096 < end)
in_pages-true first end w h = (ground arith, ground arith)

pub in_pages-false :
    (first end w : ℕ)
    → in_pages first end w ≡ false
    → (low48 w < first) ⊎ (end ≤ low48 w / 4096 * 4096)
in_pages-false first end w h = ground arith

pub in_pages-of :
    (first end w : ℕ) → first ≤ low48 w → low48 w / 4096 * 4096 < end → in_pages first end w ≡ true
in_pages-of first end w h k = ground arith

pub not-in_pages :
    (first end w : ℕ)
    → (low48 w < first) ⊎ (end ≤ low48 w / 4096 * 4096)
    → in_pages first end w ≡ false
not-in_pages first end w h = ground arith

-- The stretch of an aligned `v` at level 0 or 1 is the bytes from `v` on.
pub stretch-page :
    (v w : ℕ)
    → v % 4096 ≡ 0
    → v < 2 ^ 48
    → v ≤ low48 w
    → low48 w < v + 4096
    → (stretch 0 w ≡ stretch 0 v) × (w % 4096 ≡ low48 w - v)
stretch-page v w a l h k = (omega arith, omega arith)

pub stretch-page_ne :
    (v w : ℕ)
    → v % 4096 ≡ 0
    → v < 2 ^ 48
    → (low48 w < v) ⊎ (v + 4096 ≤ low48 w)
    → stretch 0 w ≢ stretch 0 v
stretch-page_ne v w a l h e = omega (arith, h, e)

pub stretch-large :
    (v w : ℕ)
    → v % 0x200000 ≡ 0
    → v < 2 ^ 48
    → v ≤ low48 w
    → low48 w < v + 0x200000
    → (stretch 1 w ≡ stretch 1 v) × (w % 0x200000 ≡ low48 w - v)
stretch-large v w a l h k = (omega arith, omega arith)

pub stretch-large_ne :
    (v w : ℕ)
    → v % 0x200000 ≡ 0
    → v < 2 ^ 48
    → (low48 w < v) ⊎ (v + 0x200000 ≤ low48 w)
    → stretch 1 w ≢ stretch 1 v
stretch-large_ne v w a l h e = omega (arith, h, e)
