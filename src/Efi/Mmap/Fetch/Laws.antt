-- ===== src/Efi/Mmap/Fetch/Laws.antt =====
-- `getEFIMemoryMap` holds one buffer, the map's, where it succeeds, and none where it fails.
use ech_os.Base.{ℕ, zero, suc, ◌+◌, ◌*◌, ◌==◌, if◌then◌else◌, Option, none, some, u64, List, ◌∷◌}
use ech_os.Base.{◌≡◌, ◌≢◌, ◌⊎◌, refl, ap, ◌∙◌, arith, Bool-cases, eq-or-ne, inl, inr, true}
use ech_os.Efi.Mmap.{EfiMmap}
use ech_os.Efi.Firmware.{Status, success, buffer_too_small}
use ech_os.Efi.Firmware.{warning}
use ech_os.Efi.Firmware.{is_error, MapReply, History, Firmware, got_map, M}
use ech_os.Efi.Pools.{live_pools, gain, erase, erase-head, IsFirmware}
use ech_os.Efi.Mmap.Fetch.{free_old, give_up, use_buffer, grow, handle_reply, fetch_loop, answered}
use ech_os.Efi.Mmap.Fetch.{get_efi_memory_map, empty_mmap}

-- The buffers where `memory_map` is the one in use, which may be NULL.
abbrev pub holding : (memory_map : ℕ) → List ℕ → List ℕ
holding memory_map held = if memory_map == 0 then held else memory_map ∷ held

-- How it returns: `held` are the buffers of its caller.
pub data Fetched (held : List ℕ) : Option (Status × EfiMmap) → History → Type 0 where
  unfinished : (h : History) → Fetched held none h
  refused :
      (result : Status) (mmap : EfiMmap) (h : History)
      → result ≢ success
      → mmap.start ≡ 0
      → mmap.end ≡ 0
      → live_pools h ≡ held
      → Fetched held (some (result, mmap)) h
  fetched :
      (mmap : EfiMmap) (size : ℕ) (reply : MapReply) (h : History)
      → mmap.start ≢ 0
      → reply.status ≡ success
      → mmap.size ≡ reply.size
      → mmap.descriptor_size ≡ reply.descriptor_size
      → mmap.end ≡ u64 (mmap.start + reply.size)
      → live_pools h ≡ mmap.start ∷ held
      → Fetched held (some (success, mmap)) (got_map size mmap.start reply ∷ h)

free_old-live_pools :
    (memory_map : ℕ) (fw : Firmware) (h : History) (held : List ℕ)
    → live_pools h ≡ holding memory_map held
    → live_pools (free_old memory_map fw h).1 ≡ held
unfolding free_old live_pools
free_old-live_pools memory_map fw h held e = elim (Bool-cases (memory_map == 0)) [
  | inl z ↦ rw z (e ∙ rw z refl)
  | inr nz ↦
      let in_use : live_pools h ≡ memory_map ∷ held = rw nz at e in
      rw nz (ap (λ l. erase memory_map l) in_use ∙ erase-head memory_map held)
]

give_up-Fetched :
    (result : Status) (mmap : EfiMmap) (memory_map : ℕ) (fw : Firmware) (h : History)
    (held : List ℕ)
    → result ≢ success
    → live_pools h ≡ holding memory_map held
    → Fetched held (give_up result mmap memory_map fw h).0 (give_up result mmap memory_map fw h).1
unfolding give_up
give_up-Fetched result mmap memory_map fw h held bad e =
    refused result (record mmap { start = 0; end = 0 }) _ bad refl refl
      (free_old-live_pools memory_map fw h held e)

-- A round that starts with such buffers keeps the promise.
abbrev GoesOn : Firmware → List ℕ → (EfiMmap → ℕ → M (Option (Status × EfiMmap))) → Type 0
GoesOn fw held go_on =
    (mmap : EfiMmap) (memory_map : ℕ) (h : History)
    → live_pools h ≡ holding memory_map held
    → Fetched held (go_on mmap memory_map fw h).0 (go_on mmap memory_map fw h).1

module _ (fw : Firmware) (laws : IsFirmware fw) (held : List ℕ)
    (go_on : EfiMmap → ℕ → M (Option (Status × EfiMmap))) (step : GoesOn fw held go_on) where
  use_buffer-Fetched :
      (status : Status) (mmap : EfiMmap) (pointer : ℕ) (h : History)
      → (is_error status ≡ true) ⊎ ((status ≡ success) × (pointer ≢ 0))
      → live_pools h ≡ gain status pointer held
      → Fetched held
          (use_buffer status mmap pointer go_on fw h).0
          (use_buffer status mmap pointer go_on fw h).1
  unfolding use_buffer gain is_error
  use_buffer-Fetched success mmap pointer h a e = elim a [
    | inl bad ↦ cc
    | inr good ↦ step mmap pointer h (e ∙ ground (arith, good.1))
  ]
  use_buffer-Fetched (warning n) mmap pointer h a e = elim a [ inl bad ↦ cc | inr good ↦ cc good.0 ]
  use_buffer-Fetched status mmap pointer h a e = give_up-Fetched status mmap 0 fw h held (cc) e

  grow-Fetched :
      (mmap : EfiMmap) (memory_map : ℕ) (h : History)
      → live_pools h ≡ holding memory_map held
      → Fetched held (grow mmap memory_map go_on fw h).0 (grow mmap memory_map go_on fw h).1
  unfolding grow live_pools
  grow-Fetched mmap memory_map h e =
      let size : ℕ = u64 (mmap.size + u64 (2 * mmap.descriptor_size)) in
      let h' = (free_old memory_map fw h).1 in
      let freed_ : live_pools h' ≡ held = free_old-live_pools memory_map fw h held e in
      use_buffer-Fetched (fw.allocate_pool h' size).0 (record mmap { size = size })
        (fw.allocate_pool h' size).1 _ (laws.allocates h' size)
        (ap (gain (fw.allocate_pool h' size).0 (fw.allocate_pool h' size).1) freed_)

  handle_reply-Fetched :
      (status : Status) (mmap : EfiMmap) (memory_map size : ℕ) (reply : MapReply) (h : History)
      → reply.status ≡ status
      → (status ≡ success → memory_map ≢ 0)
      → live_pools h ≡ holding memory_map held
      → let r =
          handle_reply status
            (answered mmap reply)
            memory_map
            go_on
            fw
            (got_map size memory_map reply ∷ h) in
        Fetched held r.0 r.1
  unfolding handle_reply live_pools
  handle_reply-Fetched success mmap memory_map size reply h s real e =
      let in_use : live_pools h ≡ memory_map ∷ held = ground (arith, e, real refl) in
      fetched
        (record (answered mmap reply) { start = memory_map; end = u64 (memory_map + reply.size) })
        size reply h (real refl) s refl refl refl in_use
  handle_reply-Fetched buffer_too_small mmap memory_map size reply h s real e =
      grow-Fetched (answered mmap reply) memory_map (got_map size memory_map reply ∷ h) e
  handle_reply-Fetched status mmap memory_map size reply h s real e =
      give_up-Fetched status (answered mmap reply) memory_map fw (got_map size memory_map reply ∷ h)
        held (cc) e

fetch_loop-Fetched :
    (rounds : ℕ) (fw : Firmware) (held : List ℕ)
    → IsFirmware fw
    → GoesOn fw held (fetch_loop rounds)
unfolding fetch_loop
fetch_loop-Fetched zero fw held laws mmap memory_map h e = unfinished h
fetch_loop-Fetched (suc rounds) fw held laws mmap memory_map h e =
    let reply = fw.get_memory_map h mmap.size memory_map in
    handle_reply-Fetched fw laws held (fetch_loop rounds) (fetch_loop-Fetched rounds fw held laws)
      reply.status mmap memory_map mmap.size reply h refl
      (λ s. elim (eq-or-ne memory_map 0) [
        | inl z ↦ absurd (laws.fills_a_buffer h mmap.size (rw z at s))
        | inr nz ↦ nz
      ])
      e

-- However often it asks, where `getEFIMemoryMap` returns it has kept the promise: on success it
-- holds one buffer more than before, which is not NULL and which the firmware filled last, and
-- `mmap` describes it; on failure it holds what it held, and `start` and `end` are 0.
pub get_efi_memory_map_lem :
    (rounds : ℕ) (fw : Firmware) (h : History)
    → IsFirmware fw
    → Fetched (live_pools h) (get_efi_memory_map rounds fw h).0 (get_efi_memory_map rounds fw h).1
unfolding get_efi_memory_map
get_efi_memory_map_lem rounds fw h laws =
    fetch_loop-Fetched rounds fw (live_pools h) laws empty_mmap 0 h refl
