-- ===== src/Strings.antt =====
-- lib/string/*.c and lib/stack.c on byte buffers. A pointer is the list of bytes from there to the
-- end of its buffer; an access behind that end is a fault. Source and destination do not overlap.
pub mod Laws
pub mod Itoa
pub mod Printf
use ech_os.Base.{
  ℕ, zero, suc, ◌+◌, ◌-◌, ◌*◌, ◌/◌, ◌%◌, ◌^◌, ◌==◌, ltb, if◌then◌else◌, Bool, true, false,
}
use ech_os.Base.{
  u8, u64, List, [], ◌∷◌, length, get_elem?, set, Run, ok, fault, ◌>>=◌, Option, none, some,
}

unfoldable pub load : List ℕ → ℕ → Run ℕ
load buffer i = elim (get_elem? buffer i) [ none ↦ fault | some b ↦ ok b ]

unfoldable pub store : List ℕ → ℕ → ℕ → Run (List ℕ)
store buffer i b = elim (get_elem? buffer i) [ none ↦ fault | some _ ↦ ok (set buffer i b) ]

-- The loop of `strlen`; `left` bounds the rounds.
unfoldable pub strlen_loop : (left len : ℕ) → List ℕ → Run ℕ
unfolding load
strlen_loop zero len str = fault
strlen_loop (suc left) len str = do
  c ← load str len
  let rest = strlen_loop left (len + 1) str
  if c == 0 then ok len else rest

-- A buffer's bytes are all read after as many rounds, and the next read is a fault.
unfoldable pub strlen : List ℕ → Run ℕ
unfolding strlen_loop
strlen str = strlen_loop (length str + 1) 0 str

-- `memset`: `n` rounds from `counter` on.
unfoldable pub memset_loop : (left counter c : ℕ) → List ℕ → Run (List ℕ)
unfolding store
memset_loop zero counter c s = ok s
memset_loop (suc left) counter c s = do
  s' ← store s counter (u8 c)
  memset_loop left (counter + 1) c s'

unfoldable pub memset : List ℕ → (c n : ℕ) → Run (List ℕ)
unfolding memset_loop
memset s c n = memset_loop n 0 c s

unfoldable pub memcpy_loop : (left counter : ℕ) → (dest src : List ℕ) → Run (List ℕ)
unfolding load store
memcpy_loop zero counter dest src = ok dest
memcpy_loop (suc left) counter dest src = do
  b ← load src counter
  dest' ← store dest counter b
  memcpy_loop left (counter + 1) dest' src

-- `memcpy` between two buffers; copying a buffer to itself returns at once and changes nothing.
unfoldable pub memcpy : (dest src : List ℕ) → (n : ℕ) → Run (List ℕ)
unfolding memcpy_loop
memcpy dest src n = memcpy_loop n 0 dest src

unfoldable pub strcpy : (dest src : List ℕ) → Run (List ℕ)
unfolding memcpy strlen
strcpy dest src = do len ← strlen src; memcpy dest src (len + 1)

-- The results of a comparison, -1, 0 and 1.
pub data Compared : Type 0 where
  less same greater : Compared

-- `s1[i] < s2[i]` of two `char`, which are signed on the target.
abbrev pub char_less : ℕ → ℕ → Bool
char_less a b = ltb ((a + 128) % 256) ((b + 128) % 256)

unfoldable pub memcmp_loop : (left i : ℕ) → (s1 s2 : List ℕ) → Run Compared
unfolding load
memcmp_loop zero i s1 s2 = ok same
memcmp_loop (suc left) i s1 s2 = do
  a ← load s1 i
  b ← load s2 i
  let rest = memcmp_loop left (i + 1) s1 s2
  if a == b then rest else ok (if char_less a b then less else greater)

unfoldable pub memcmp : (s1 s2 : List ℕ) → (n : ℕ) → Run Compared
unfolding memcmp_loop
memcmp s1 s2 n = memcmp_loop n 0 s1 s2

-- `strcmp` runs the same loop up to the longer of the two lengths.
unfoldable pub strcmp : (s1 s2 : List ℕ) → Run Compared
unfolding memcmp_loop strlen
strcmp s1 s2 = do
  length1 ← strlen s1
  length2 ← strlen s2
  memcmp_loop (if ltb length1 length2 then length2 else length1) 0 s1 s2

-- `stack64_t`: `stack` as the words of its buffer.
pub record Stack64 : Type 0 where
  pub stack : List ℕ
  pub size : ℕ
  pub sp : ℕ

unfoldable pub stack64_push : Stack64 → ℕ → Run Stack64
unfolding store
stack64_push s value = do
  words ← store s.stack s.sp value
  ok (record s { stack = words; sp = u64 (s.sp + 1) })

unfoldable pub stack64_pop : Stack64 → Run (ℕ × Stack64)
unfolding load
stack64_pop s =
    let sp = (s.sp + 2 ^ 64 - 1) % 2 ^ 64 in
    do value ← load s.stack sp; ok (value, record s { sp = sp })
