-- ===== src/Pmm/BlockRun.antt =====
-- `frames_allocate_from_block`: the lowest run of `count` free frames is claimed.
use ech_os.Base.{ℕ, ◌+◌, ◌*◌, ◌≤◌, ◌<◌, true}
use ech_os.Base.{ltb, leb, ◌&&◌, if◌then◌else◌, sub64}
use ech_os.Base.{Run, ok, ◌>>=◌, ◌≡◌, refl, sym, ap, ◌∙◌, arith, subst, Option, none, some}
use ech_os.Pmm.Block.{PmBlock, Bitmap, frame_size, no_frame, mark_frames, claim_run}
use ech_os.Pmm.Block.{frames_allocate_from_block}
use ech_os.Pmm.Usage.{used, count_free, count_free-le}
use ech_os.Pmm.Valid.{BitmapIsValid, IsValid, region, block_used, used_in, start_of, bitmap_valid}
use ech_os.Pmm.FindRun.{Blocked, FreeRange, RunFound, no_run, run, find_run_lem}
use ech_os.Pmm.MarkFrames.{mark_range, MarkedRange, mark_frames_lem}

pub record ClaimedRun (b : PmBlock) (s count : ℕ) (b' : PmBlock) : Type 0 where
  pub same_region : region b' ≡ region b
  pub usage : (i : ℕ) → block_used b' i ≡ mark_range (block_used b) s (s + count) i
  pub valid : IsValid b'
  pub less : b'.frames_free + count ≡ b.frames_free

pub data BlockRun (b : PmBlock) (count : ℕ) (r : Run (ℕ × PmBlock)) : Type 0 where
  no_room :
      ((s : ℕ) → s + count ≤ b.frames_total → Blocked (block_used b) s count)
      → r ≡ ok (no_frame, b)
      → BlockRun b count r
  claimed_run :
      (s : ℕ) (b' : PmBlock)
      → s + count ≤ b.frames_total
      → FreeRange (block_used b) s (s + count)
      → ((t : ℕ) → t < s → Blocked (block_used b) t count)
      → ClaimedRun b s count b'
      → r ≡ ok (b.address + s * frame_size, b')
      → BlockRun b count r

module _ (b : PmBlock) (m : Bitmap) (valid : IsValid b) (managed : b.bitmap ≡ some m) where
  bitmap : BitmapIsValid m b.frames_total b.frames_free
  bitmap = bitmap_valid valid managed

  seen : (i : ℕ) → block_used b i ≡ used m.words i
  seen i = ap (λ t. used_in t i) managed

  module _ (s count : ℕ) (low : s + count ≤ b.frames_total) {r : Run PmBlock}
      (marked : MarkedRange b m s (s + count) r) where
    claimed_block : PmBlock
    claimed_block = record b { bitmap = some marked.after; frames_free = sub64 b.frames_free count }

    new_count : sub64 b.frames_free count ≡ count_free b.frames_total (used marked.after.words)
    new_count = omega (
      arith,
      marked.count,
      bitmap.counted,
      valid.fits,
      count_free-le b.frames_total (used m.words),
    )

    claimed_block-ClaimedRun : ClaimedRun b s count claimed_block
    unfolding claimed_block
    claimed_block-ClaimedRun = record {
      same_region =
          ap (λ t. record (region b) { start = t })
            (ap some marked.same_start ∙ sym (ap start_of managed));
      usage = λ i.
          marked.usage i
          ∙ sym (ap (λ t. if leb s i && ltb i (s + count) then true else t) (seen i));
      valid = record { fits = valid.fits; map_valid = rw new_count marked.valid };
      less = omega (arith, new_count, marked.count, bitmap.counted);
    }

  marked_run :
      (s count : ℕ)
      → s + count ≤ b.frames_total
      → FreeRange (block_used b) s (s + count)
      → MarkedRange b m s (s + count) (mark_frames count s b)
  marked_run s count low free =
      mark_frames_lem b m count s (s + count) managed
        (subst (BitmapIsValid m b.frames_total) bitmap.counted bitmap) refl low
        (λ i p q. sym (seen i) ∙ free i p q)

  claim_run_lem :
      (s count : ℕ) (low : s + count ≤ b.frames_total)
      (free : FreeRange (block_used b) s (s + count))
      → 0 < count
      → claim_run b s count
        ≡ ok (b.address + s * frame_size, claimed_block s count low (marked_run s count low free))
  unfolding claim_run claimed_block
  claim_run_lem s count low free pos =
      let marked = marked_run s count low free in
      rw marked.returns
        (ap (λ t. ok (t, claimed_block s count low marked)) (omega (arith, valid.fits)))

  RunFound-BlockRun :
      (count : ℕ) {r : Run (Option ℕ)}
      → 0 < count
      → RunFound (block_used b) count b.frames_total r
      → BlockRun b count (do
        found ← r
        elim found [ none ↦ ok (no_frame, b) | some run_start ↦ claim_run b run_start count ])
  RunFound-BlockRun count pos (no_run a h) = no_room a (rw h)
  RunFound-BlockRun count pos (run s low free first h) =
      let marked = marked_run s count low free in
      claimed_run s (claimed_block s count low marked) low free first
        (claimed_block-ClaimedRun s count low marked) (rw h (claim_run_lem s count low free pos))

  -- On a valid, managed block `frames_allocate_from_block` with a positive count does not fault. It
  -- gives up, with the block as it was, only if every run of `count` frames in the block has a used
  -- frame; else it takes the lowest free run, all of it and no other frame.
  pub frames_allocate_from_block_lem :
      (count : ℕ) → 0 < count → BlockRun b count (frames_allocate_from_block b count)
  unfolding frames_allocate_from_block
  frames_allocate_from_block_lem count h =
      RunFound-BlockRun count h (find_run_lem b m valid managed count h)
