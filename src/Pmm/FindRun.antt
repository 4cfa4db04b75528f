-- ===== src/Pmm/FindRun.antt =====
-- The search of `frames_allocate_from_block`: the first run of free frames that is long enough.
use ech_os.Base.{ℕ, zero, suc, ◌+◌, ◌-◌, ◌*◌, ◌/◌, ◌%◌, ◌≤◌, ◌<◌, ◌==◌, Bool, true, false}
use ech_os.Base.{ltb, if◌then◌else◌, Bool-cases, lt-or-le, eq-or-ne, inl, inr}
use ech_os.Base.{get_or, Run, ok, ◌≡◌, refl, sym, ap, ◌∙◌, arith, Option, none, some}
use ech_os.Pmm.Block.{PmBlock, Bitmap, frame_is_used, find_run}
use ech_os.Pmm.Usage.{word_at, used, used-at}
use ech_os.Bits.{bits}
use ech_os.Pmm.Mask.{test_shifted}
use ech_os.Pmm.Valid.{IsValid, block_used, used_in, read_word-ok, bitmap_valid}

-- Frame by frame: all of `lo` to `hi - 1` are free; one of `count` frames from `s` on is used.
abbrev pub FreeRange : (u : ℕ → Bool) (lo hi : ℕ) → Type 0
FreeRange u lo hi = (i : ℕ) → lo ≤ i → i < hi → u i ≡ false

abbrev pub Blocked : (u : ℕ → Bool) (s count : ℕ) → Type 0
Blocked u s count = (i : ℕ) × (s ≤ i) × (i < s + count) × (u i ≡ true)

pub data RunFound (u : ℕ → Bool) (count total : ℕ) (r : Run (Option ℕ)) : Type 0 where
  no_run :
      ((s : ℕ) → s + count ≤ total → Blocked u s count) → r ≡ ok none → RunFound u count total r
  run :
      (s : ℕ)
      → s + count ≤ total
      → FreeRange u s (s + count)
      → ((t : ℕ) → t < s → Blocked u t count)
      → r ≡ ok (some s)
      → RunFound u count total r

-- What holds at `frame` with a run of `len` free frames behind it.
record Search (u : ℕ → Bool) (count frame start len : ℕ) : Type 0 where
  within : len ≤ frame
  short : len < count
  run_free : FreeRange u (frame - len) frame
  began : 0 < len → start + len ≡ frame
  stopped : 0 < frame - len → u (frame - len - 1) ≡ true
  none_before : (s : ℕ) → s + count ≤ frame → Blocked u s count

module _ (u : ℕ → Bool) (count frame start len : ℕ) (s : Search u count frame start len) where
  abbrev start' : ℕ
  start' = if len == 0 then frame else start

  start'-eq : start' + len ≡ frame
  start'-eq = ground (arith, s.began)

  Search-used : u frame ≡ true → Search u count (frame + 1) start 0
  Search-used e = record {
    within = omega arith;
    short = omega (arith, s.short);
    run_free = λ i p q. absurd (omega arith);
    began = λ h. absurd (omega arith);
    stopped = λ _. let at : frame + 1 - 0 - 1 ≡ frame = omega arith in rw at e;
    none_before = λ t h. elim (lt-or-le frame (t + count)) [
      | inl last ↦ (frame, omega (arith, s.short), last, e)
      | inr before ↦ s.none_before t before
    ];
  }

  Search-free : u frame ≡ false → len + 1 < count → Search u count (frame + 1) start' (len + 1)
  Search-free e h = record {
    within = omega (arith, s.within);
    short = h;
    run_free = λ i p q. elim (eq-or-ne i frame) [
      | inl last ↦ rw last e
      | inr before ↦ s.run_free i (omega arith) (omega arith)
    ];
    began = λ _. omega (arith, start'-eq);
    stopped = λ p.
        let at : frame + 1 - (len + 1) - 1 ≡ frame - len - 1 = omega arith in
        rw at (s.stopped (omega arith));
    none_before = λ t q. elim (lt-or-le frame (t + count)) [
      | inl last ↦ (
        frame - len - 1,
        omega (arith, s.within),
        omega (arith, s.within),
        s.stopped (omega arith),
      )
      | inr before ↦ s.none_before t before
    ];
  }

  RunFound-here :
      (total : ℕ)
      → u frame ≡ false
      → count ≤ len + 1
      → frame < total
      → RunFound u count total (ok (some start'))
  RunFound-here total e h low =
      let size : len + 1 ≡ count = omega (arith, s.short) in
      run start' (omega (arith, start'-eq))
        (λ i p q. elim (eq-or-ne i frame) [
          | inl last ↦ rw last e
          | inr before ↦ s.run_free i (omega (arith, start'-eq)) (omega (arith, start'-eq))
        ])
        (λ t p. elim (lt-or-le frame (t + count)) [
          | inl last ↦ absurd (omega (arith, start'-eq))
          | inr before ↦ s.none_before t before
        ])
        refl

module _ (b : PmBlock) (m : Bitmap) (valid : IsValid b) (managed : b.bitmap ≡ some m) where
  frame_is_used_lem : (n : ℕ) → n < b.frames_total → frame_is_used b n ≡ ok (block_used b n)
  unfolding frame_is_used
  frame_is_used_lem n h =
      let bitmap = bitmap_valid valid managed in
      rw (read_word-ok (n / 64) managed (omega (arith, bitmap.sized)))
        (ap ok (test_shifted (n % 64) (word_at m.words (n / 64)) (omega arith) ∙ sym seen))
    where
      whole : n / 64 * 64 + n % 64 ≡ n
      whole = omega arith

      seen : block_used b n ≡ get_or (bits 64 (word_at m.words (n / 64))) (n % 64) true
      seen =
          ap (λ t. used_in t n) managed
          ∙ ap (used m.words) (sym whole)
          ∙ used-at m.words (n / 64) (n % 64) (omega arith)

  find_run-RunFound :
      (count left frame start len : ℕ)
      → Search (block_used b) count frame start len
      → frame + left ≡ b.frames_total
      → RunFound (block_used b) count b.frames_total (find_run b count left frame start len)
  unfolding find_run
  find_run-RunFound count zero frame start len s e =
      no_run (λ t h. s.none_before t (omega arith)) refl
  find_run-RunFound count (suc left) frame start len s e =
      rw (frame_is_used_lem frame (omega arith)) (elim (Bool-cases (block_used b frame)) [
        | inl taken ↦ rw taken (
            find_run-RunFound count left (frame + 1) start 0
              (Search-used (block_used b) count frame start len s taken) (omega arith))
        | inr free ↦ rw free (elim (Bool-cases (ltb (len + 1) count)) [
          | inl short ↦ rw short (
              find_run-RunFound count left (frame + 1) _ (len + 1)
                (Search-free (block_used b) count frame start len s free (ground arith))
                (omega arith))
          | inr enough ↦ rw enough (
              RunFound-here (block_used b) count frame start len s b.frames_total free
                (ground arith) (omega arith))
        ])
      ])

  -- On a valid, managed block the search does not fault. It returns the lowest run of `count` free
  -- frames within the block, and none only if every such run has a used frame.
  pub find_run_lem :
      (count : ℕ)
      → 0 < count
      → RunFound (block_used b) count b.frames_total (find_run b count b.frames_total 0 0 0)
  find_run_lem count h = find_run-RunFound count b.frames_total 0 0 0 first (omega arith)
    where
      first : Search (block_used b) count 0 0 0
      first = record {
        within = omega arith;
        short = h;
        run_free = λ i p q. absurd (omega arith);
        began = λ p. absurd (omega arith);
        stopped = λ p. absurd (omega arith);
        none_before = λ s p. absurd (omega arith);
      }
