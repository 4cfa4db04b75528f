-- ===== src/Efi/Mmap/Fetch/Ends.antt =====
-- `getEFIMemoryMap` ends in its second round.
use ech_os.Base.{ℕ, suc, ◌+◌, ◌*◌, ◌^◌, ◌≤◌, ◌<◌, Option, some, u64, ◌∷◌}
use ech_os.Base.{◌≡◌, ◌≢◌, ◌⊎◌, refl, arith, inl, inr, true}
use ech_os.Efi.Mmap.{EfiMmap}
use ech_os.Efi.Firmware.{Status, success, buffer_too_small}
use ech_os.Efi.Firmware.{is_error, MapReply, History, Firmware, got_map, allocated, M}
use ech_os.Efi.Pools.{IsFirmware}
use ech_os.Efi.Mmap.Fetch.{free_old, give_up, use_buffer, grow, handle_reply, fetch_loop, answered}
use ech_os.Efi.Mmap.Fetch.{get_efi_memory_map, empty_mmap}

-- A firmware whose map needs `needed` bytes, at most two descriptors more behind an allocation,
-- and that says so.
pub record Answers (fw : Firmware) (needed : History → ℕ) (descriptor_size : ℕ) : Type 0 where
  pub some_bytes : (h : History) → 0 < needed h
  pub small : (h : History) → needed h + 2 * descriptor_size < 2 ^ 64
  pub grants :
      (h : History) (size buffer : ℕ)
      → needed h ≤ size
      → buffer ≢ 0
      → (fw.get_memory_map h size buffer).status ≡ success
  pub denies :
      (h : History) (size buffer : ℕ)
      → size < needed h
      → ((fw.get_memory_map h size buffer).status ≡ buffer_too_small)
        × ((fw.get_memory_map h size buffer).size ≡ needed h)
        × ((fw.get_memory_map h size buffer).descriptor_size ≡ descriptor_size)
  pub steady :
      (h : History) (size buffer asked pointer : ℕ) (reply : MapReply)
      → needed (allocated asked success pointer ∷ got_map size buffer reply ∷ h)
        ≤ needed h + 2 * descriptor_size

-- The run returns with `result`.
abbrev pub Returned : Option (Status × EfiMmap) → Status → Type 0
Returned r result = (mmap : EfiMmap) × (r ≡ some (result, mmap))

module _ (fw : Firmware) (laws : IsFirmware fw) {needed : History → ℕ} {descriptor_size : ℕ}
    (answers : Answers fw needed descriptor_size) (rounds : ℕ) where
  second_round :
      (mmap : EfiMmap) (memory_map : ℕ) (h : History)
      → memory_map ≢ 0
      → needed h ≤ mmap.size
      → Returned (fetch_loop (suc rounds) mmap memory_map fw h).0 success
  unfolding fetch_loop handle_reply
  second_round mmap memory_map h real enough =
      rw (answers.grants h mmap.size memory_map enough real) (_, refl)

  refused_pool :
      (status : Status) (mmap : EfiMmap) (pointer : ℕ) (h : History)
      → is_error status ≡ true
      → Returned (use_buffer status mmap pointer (fetch_loop (suc rounds)) fw h).0 status
  unfolding use_buffer give_up free_old is_error
  refused_pool success mmap pointer h e = cc
  refused_pool status mmap pointer h e = (_, refl)

  -- What a round does that has no buffer yet and is told that it is too small.
  denied_round :
      (status : Status) (mmap : EfiMmap) (size : ℕ)
      (go_on : EfiMmap → ℕ → M (Option (Status × EfiMmap))) (h : History)
      → status ≡ buffer_too_small
      → u64 (mmap.size + u64 (2 * mmap.descriptor_size)) ≡ size
      → let pool = fw.allocate_pool h size in
        handle_reply status mmap 0 go_on fw h
        ≡ use_buffer pool.0
            (record mmap { size = size })
            pool.1
            go_on
            fw
            (allocated size pool.0 pool.1 ∷ h)
  unfolding handle_reply grow free_old
  denied_round status mmap size go_on h e s = rw (e, handle_reply, s) refl

  -- The first round asks the pool for the bytes that the map needs and two descriptors more.
  abbrev pub asked : History → ℕ × History
  asked h = (needed h + 2 * descriptor_size, got_map 0 0 (fw.get_memory_map h 0 0) ∷ h)

  asks :
      (h : History)
      → let reply = fw.get_memory_map h 0 0 in
        u64 (reply.size + u64 (2 * reply.descriptor_size)) ≡ needed h + 2 * descriptor_size
  asks h = omega (arith, answers.denies h 0 0 (answers.some_bytes h), answers.small h)

  with_pool :
      (h : History) (status : Status) (pointer key : ℕ)
      → (is_error status ≡ true) ⊎ ((status ≡ success) × (pointer ≢ 0))
      → let (size, h') = asked h in
        let mmap = record empty_mmap {
          size = size;
          key = key;
          descriptor_size = (fw.get_memory_map h 0 0).descriptor_size;
        } in
        ((status ≡ success) ⊎ (is_error status ≡ true))
        × Returned
            (use_buffer status mmap pointer
              (fetch_loop (suc rounds))
              fw
              (allocated size status pointer ∷ h')).0
            status
  unfolding use_buffer
  with_pool h status pointer key (inl bad) = (inr bad, refused_pool status _ pointer _ bad)
  with_pool h status pointer key (inr (good, real)) = (
    inl good,
    rw good (
        second_round _ pointer _ real
          (answers.steady h 0 0 (asked h).0 pointer (fw.get_memory_map h 0 0))),
  )

  -- Where the map grows by two descriptors at most when its buffer is allocated, two rounds are
  -- enough for `getEFIMemoryMap` to return: with success if the pool gives the buffer, else with the
  -- error of the pool.
  pub get_efi_memory_map_ends :
      (h : History)
      → let (size, h') = asked h in
        let result = (fw.allocate_pool h' size).0 in
        ((result ≡ success) ⊎ (is_error result ≡ true))
        × Returned (get_efi_memory_map (suc (suc rounds)) fw h).0 result
  unfolding get_efi_memory_map fetch_loop
  get_efi_memory_map_ends h =
      let (size, h') = asked h in
      let pool = fw.allocate_pool h' size in
      let reply = fw.get_memory_map h 0 0 in
      rw
        (denied_round reply.status (answered empty_mmap reply) size (fetch_loop (suc rounds)) h'
          (answers.denies h 0 0 (answers.some_bytes h)).0 (asks h))
        (with_pool h pool.0 pool.1 reply.key (laws.allocates h' size))
