-- ===== src/Kernel/Start/Identity.antt =====
-- `init_paging`, against the walk of the processor.
use ech_os.Base.{◌>>=◌, ℕ, ◌+◌, ◌%◌, ◌^◌, ◌≤◌, ◌==◌, ◌||◌, if◌then◌else◌, none, some, false}
use ech_os.Base.{◌≡◌, refl, ◌∙◌, arith, Bool-cases, inl, inr, ◌⊎◌, ◌≢◌, Run, ok, length}
use ech_os.Pmm.{Pmm}
use ech_os.Pmm.Layout.{PmmIsValid, layout}
use ech_os.Paging.{Machine, Outcome, done, failed, init_pml4, read_write_bit}
use ech_os.Pmm.FrameAllocate.{Taken}
use ech_os.Paging.Kept.{Kept, Kept-trans, Taken-Kept, Starved, Starved-Kept}
use ech_os.Paging.Fresh.{cleared}
use ech_os.Paging.Translate.{translate}
use ech_os.Paging.Tree.{Places, Tree}
use ech_os.Paging.Frames.{AllFrames}
use ech_os.Paging.Directory.{AllFrames-Kept}
use ech_os.Paging.Span.{low48}
use ech_os.Paging.MapRange.Loop.{map_range-MapsPages}
use ech_os.Kernel.Colonel.{Framebuffer}
use ech_os.Kernel.Start.{map_blocks, map_framebuffer, fb_length, init_paging}
use ech_os.Kernel.Start.Covered.{
  Moved, MapsSame, MapsSame-then, MapsPages-MapsSame, in_regions, in_framebuffer,
}
use ech_os.Kernel.Start.Root.{Root, null, root, init_pml4-Root, Tree-root, translate-root, only}
use ech_os.Kernel.Start.Blocks.{AllLow, map_blocks-MapsSame}

-- What `init_paging` leaves where it reports success.
pub record IsIdentity (m : Machine) (fb : Framebuffer) (r : Run (Outcome × Machine)) : Type 0 where
  pub outcome : Outcome
  pub after : Machine
  pub returns : r ≡ ok (outcome, after)
  pub kept : Kept m.physical_memory after.physical_memory
  -- It fails where no frame is left for a table only.
  pub why_failed : outcome ≡ failed → Starved m.physical_memory after.physical_memory
  pub mapped :
      outcome ≡ done
      → (pml4 : ℕ) × (first : Machine) × (init_pml4 m ≡ ok (pml4, first))
        × ((w : ℕ)
            → translate after.words pml4 w ≡ (
                if in_regions (layout m.physical_memory) w || in_framebuffer fb w
                then some (low48 w)
                else none))

module _ (m : Machine) (fb : Framebuffer) (valid : PmmIsValid m.physical_memory)
    (frames : AllFrames (layout m.physical_memory)) (low : AllLow (layout m.physical_memory))
    (fb_low : fb.buffer + fb_length fb ≤ 2 ^ 48) where
  -- Behind the fresh PML4 `f`, by which nothing is mapped.
  module _ (f : ℕ) (p : Pmm) (taken : Taken m.physical_memory f p) (aligned : f % 4096 ≡ 0)
      (nonzero : f ≢ 0) where
    framebuffer_behind :
        (n : Machine) (place : Places)
        → Tree n f place
        → Kept p n.physical_memory
        → MapsSame n f (in_framebuffer fb) (map_framebuffer n fb f done)
    unfolding map_framebuffer
    framebuffer_behind n place tree k =
        MapsPages-MapsSame (in_framebuffer fb) (λ w. refl)
          (map_range-MapsPages n place f fb.buffer fb.buffer (fb_length fb) read_write_bit tree
            k.valid (AllFrames-Kept k (rw taken.same_layout frames)) fb_low (omega (arith, fb_low))
            refl)

    all_behind :
        MapsSame
          (cleared m f p)
          f
          (λ w. in_regions (layout p) w || in_framebuffer fb w)
          (do
            (mapped, n) ← map_blocks (length p) 0 (cleared m f p) f
            map_framebuffer n fb f mapped)
    unfolding map_framebuffer
    all_behind =
        MapsSame-then (in_regions (layout p)) (in_framebuffer fb)
          (map_blocks-MapsSame (length p) 0 (cleared m f p) f (only f)
            (Tree-root m f p taken aligned nonzero) taken.valid (rw taken.same_layout frames)
            (rw taken.same_layout low) (omega arith))
          (λ o n. map_framebuffer n fb f o) (λ n. refl) framebuffer_behind

    MapsSame-IsIdentity :
        {r : Run (Outcome × Machine)}
        → init_pml4 m ≡ ok (f, cleared m f p)
        → MapsSame (cleared m f p) f (λ w. in_regions (layout p) w || in_framebuffer fb w) r
        → IsIdentity m fb r
    MapsSame-IsIdentity made d = record {
      outcome = d.outcome;
      after = d.after;
      returns = d.returns;
      kept = Kept-trans (Taken-Kept taken) d.kept;
      why_failed = λ e. starved (d.why_failed e);
      mapped = λ e. (f, cleared m f p, made, λ w. rw (← taken.same_layout) (at e w));
    }
      where
        starved :
            Starved p d.after.physical_memory ⊎ Moved (cleared m f p).words f
            → Starved m.physical_memory d.after.physical_memory
        starved (inl none_) =
            Starved-Kept m.physical_memory p d.after.physical_memory (Taken-Kept taken) none_
        starved (inr (w, (y, at, ne))) =
            let nothing = translate-root m f p taken aligned nonzero w in absurd (cc)

        at :
            d.outcome ≡ done
            → (w : ℕ)
            → translate d.after.words f w
              ≡ (if in_regions (layout p) w || in_framebuffer fb w then some (low48 w) else none)
        at e w = elim (Bool-cases (in_regions (layout p) w || in_framebuffer fb w)) [
          | inl here ↦ rw here (d.inside e w here)
          | inr other ↦ rw other (d.outside w other ∙ translate-root m f p taken aligned nonzero w)
        ]

  from_pml4 :
      {r : Run (ℕ × Machine)}
      → Root m r
      → init_pml4 m ≡ r
      → IsIdentity m fb (do
        (pml4, n) ← r
        if pml4 == 0 then ok (failed, n) else do
          (mapped, n') ← map_blocks (length n.physical_memory) 0 n pml4
          map_framebuffer n' fb pml4 mapped)
  unfolding map_framebuffer
  from_pml4 (null n k why) made = record {
    outcome = failed;
    after = n;
    returns = refl;
    kept = k;
    why_failed = λ e. why;
    mapped = λ e. absurd (cc);
  }
  from_pml4 (root f p taken ne aligned) made =
      let real : (f == 0) ≡ false = ground arith in
      rw real (MapsSame-IsIdentity f p taken aligned ne made (all_behind f p taken aligned ne))

  -- On a valid PMM of whole frames, whose regions and the framebuffer end within 48 bits,
  -- `init_paging` returns, and fails only where no frame is left or the one at address 0 is free.
  -- Where it succeeds, the processor's walk of the tables that CR3 is loaded with maps to itself
  -- every address in a page of the framebuffer or of a region that is neither MMIO nor reserved,
  -- short of page 0, and maps no other address.
  pub init_paging-IsIdentity : IsIdentity m fb (init_paging m fb)
  unfolding init_paging
  init_paging-IsIdentity = from_pml4 (init_pml4-Root m valid frames) refl
