-- ===== src/Efi/Main/Loop.antt =====
-- The loop of `efi_main` that leaves the firmware ends.
use ech_os.Base.{ℕ, zero, suc, ◌<◌, ◌∷◌, ◌≡◌, ◌⊎◌, refl, arith, inl, inr}
use ech_os.Efi.Mmap.{EfiMmap}
use ech_os.Efi.Mmap.Fetch.{answered}
use ech_os.Efi.Firmware.{Status, success, invalid_parameter, History, Firmware, got_map, exited, M}
use ech_os.Efi.Main.{Leaving, left, after_exit, after_map, exit_loop}

-- A firmware whose map fits `capacity` bytes, and that refuses a fresh key only as stale, and only
-- `stale` times more.
pub record LetsGo (fw : Firmware) (capacity buffer : ℕ) (stale : History → ℕ) : Type 0 where
  pub reads : (h : History) → (fw.get_memory_map h capacity buffer).status ≡ success
  pub accepts :
      (h : History)
      → let reply = fw.get_memory_map h capacity buffer in
        let h' = got_map capacity buffer reply ∷ h in
        let status = fw.exit_boot_services h' reply.key in
        (status ≡ success)
        ⊎ ((status ≡ invalid_parameter) × (stale (exited reply.key status ∷ h') < stale h))

abbrev pub HasLeft : Leaving → Type 0
HasLeft leaving = (mmap : EfiMmap) × (leaving ≡ left mmap)

module _ (fw : Firmware) (go_on : M Leaving) where
  after_exit-HasLeft :
      (status : Status) (mmap : EfiMmap) (h : History)
      → (status ≡ success) ⊎ ((status ≡ invalid_parameter) × HasLeft (go_on fw h).0)
      → HasLeft (after_exit status mmap go_on fw h).0
  unfolding after_exit
  after_exit-HasLeft status mmap h (inl e) = rw e (mmap, refl)
  after_exit-HasLeft status mmap h (inr (e, rest)) = rw e rest

  after_map-HasLeft :
      (status : Status) (mmap : EfiMmap) (h : History)
      → status ≡ success
      → let result = fw.exit_boot_services h mmap.key in
        (result ≡ success)
          ⊎ ((result ≡ invalid_parameter) × HasLeft (go_on fw (exited mmap.key result ∷ h)).0)
        → HasLeft (after_map status mmap go_on fw h).0
  unfolding after_map
  after_map-HasLeft status mmap h e rest =
      rw e (after_exit-HasLeft (fw.exit_boot_services h mmap.key) mmap _ rest)

-- With such a firmware the loop leaves it in at most one round more than it refuses keys.
pub exit_loop_ends :
    (rounds capacity buffer : ℕ) (mmap : EfiMmap) (fw : Firmware) (stale : History → ℕ)
    (h : History)
    → LetsGo fw capacity buffer stale
    → stale h < rounds
    → HasLeft (exit_loop rounds capacity buffer mmap fw h).0
unfolding exit_loop
exit_loop_ends zero capacity buffer mmap fw stale h go few = absurd (omega arith)
exit_loop_ends (suc rounds) capacity buffer mmap fw stale h go few =
    let reply = fw.get_memory_map h capacity buffer in
    after_map-HasLeft fw (exit_loop rounds capacity buffer (answered mmap reply)) reply.status
      (answered mmap reply) (got_map capacity buffer reply ∷ h) (go.reads h)
      (elim (go.accepts h) [
        | inl e ↦ inl e
        | inr (e, fewer) ↦ inr (
          e,
          exit_loop_ends rounds capacity buffer (answered mmap reply) fw stale _ go (omega arith),
        )
      ])
