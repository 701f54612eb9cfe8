-- ===== src/Backend/Threads/Stores.antt =====
-- A schedule on which a thread seeks between the seek and the write of another.
use capfs.Base.{
  ℕ, ◌+◌, ◌/◌, ◌<◌, ◌≤◌, ◌≡◌, refl, ap, ◌∙◌, not, none, [], ◌∷◌, pos, arith, ltb, leb, ◌==◌, add64,
  is_negative, is_nonzero, length, length-take, take, true, false,
}
use capfs.Machine.{State, patch}
use capfs.Machine.Bytes.{patch_shift}
use capfs.Machine.Post.{Returns, returns, Returns-bind, Returns-else, Returns-assert, Returns-and}
use capfs.Machine.Healthy.{Healthy-Frame, fseek-Returns, fwrite-Returns, fwrite-Moves}
use capfs.Machine.Settles.{Settles-Returns}
use capfs.Capability.{perm_write, permits, capref_to_capability}
use capfs.Capability.RoundTrip.{capref_to_capability_bounds}
use capfs.Metadata.{data_offset, files_size}
use capfs.Metadata.Decided.{can_mark}
use capfs.Capstore.{capstore_addr2offset}
use capfs.Capstore.Access.{no_error}
use capfs.Backend.{as_long, metadata_clear_valid_bits}
use capfs.Backend.Confined.{data_byte}
use capfs.Backend.ReadWrite.{Ready-Frame}
use capfs.Backend.Settled.{Holds, mark-Settles}
use capfs.Backend.Refines.{Holds-Frame}
use capfs.Backend.Threads.{
  Job, rawwrite_seek, place_part, rawwrite_store, store_part, waiting, sought, storing, placed,
  answered, after_place, advance, interleave,
}
use capfs.Backend.Threads.Turns.{place, Allowed, At, found_at, seek-Returns, fetch-Returns}
use capfs.Backend.Threads.Race.{first_turn, second_turn, next_turn}

-- A write through a writable capability, of a range that ends inside it and inside the data region, whose
-- validity bits can be marked, and of a buffer that is long enough.
pub record Storable (job : Job) : Type 0 where
  pub writable : permits (capref_to_capability job.cap) perm_write ≡ true
  pub inside : job.offset + job.bytes < (capref_to_capability job.cap).size
  pub stored : place job + job.bytes < files_size
  pub markable : can_mark (place job / 8) ((place job + job.bytes + 7) / 8) ≡ true
  pub long : job.bytes ≤ length job.buffer

module _ (memory : ℕ → ℕ) where
  rawwrite_seek-Returns :
      (job : Job) (at : ℕ) {s : State}
      → Holds memory s
      → at + job.bytes < files_size
      → Returns (λ r t. (r ≡ none) × At memory at t) (rawwrite_seek job at s)
  unfolding rawwrite_seek
  rawwrite_seek-Returns job at {s} h stored =
      Returns-else (not s.file.opened) _ _ (ground (arith, h.ready.healthy.opened)) (
        Returns-else (leb s.data_size (add64 at job.bytes)) _ _ (ground (arith, h.ready.data_size))
          (Returns-bind (fseek-Returns h.ready.healthy (capstore_addr2offset at) (omega arith))
            λ failed t (worked, same, there). Returns-else failed _ _ worked (
              returns
                (refl, record { held = Holds-Frame same h; position = there ∙ omega arith }))))

  place_part-Returns :
      (job : Job) {s : State}
      → Holds memory s
      → Storable job
      → Returns (λ r t. (r ≡ none) × At memory (place job) t) (place_part job s)
  unfolding place_part metadata_clear_valid_bits
  place_part-Returns job {s} h a =
      let c = capref_to_capability job.cap in
      let (base_fits, size_fits) = capref_to_capability_bounds job.cap in
      let at : add64 c.base job.offset ≡ place job = omega (arith, a.inside) in
      let to : add64 (place job) job.bytes ≡ place job + job.bytes = omega (arith, a.stored) in
      Returns-else (not (permits c perm_write)) _ _ (ap not a.writable) (
        Returns-else (is_negative job.offset) _ _ (ground (arith, a.inside)) (
          Returns-else (leb c.size (add64 job.offset job.bytes)) _ _ (ground (arith, a.inside)) (
            rw (at, to)
              (Returns-bind
                (Settles-Returns
                  (mark-Settles false memory (place job) (place job + job.bytes) h (omega arith)
                    a.stored)
                  a.markable)
                λ cleared t (_, kept).
                  Returns-assert (ltb (add64 job.offset job.bytes) c.size) _
                    (ground (arith, a.inside))
                    (rawwrite_seek-Returns job (place job) kept a.stored)))))

  place-Returns :
      (job : Job) {s : State}
      → Holds memory s
      → Storable job
      → Returns (λ th t. (th ≡ placed job) × At memory (place job) t) (advance (storing job) s)
  unfolding advance
  place-Returns job h a =
      Returns-bind (place_part-Returns job h a)
        λ r t (none', there). returns (ap (after_place job) none', there)

  -- The memory with the bytes of a write at an address.
  abbrev pub stored_at : Job → ℕ → ℕ → ℕ
  stored_at job address = patch memory address (take job.bytes job.buffer)

  rawwrite_store-Returns :
      (job : Job) (address : ℕ) {s : State}
      → At memory address s
      → Storable job
      → address + job.bytes ≤ files_size
      → Returns
          (λ err t. (err ≡ pos 0) × At (stored_at job address) (address + job.bytes) t)
          (rawwrite_store job s)
  unfolding rawwrite_store data_byte
  rawwrite_store-Returns job address {s} h a fits =
      let xs = take job.bytes job.buffer in
      let all : length xs ≡ job.bytes = omega (arith, length-take job.bytes job.buffer, a.long) in
      let healthy = h.held.ready.healthy in
      Returns-bind (Returns-and (fwrite-Returns healthy xs) (fwrite-Moves healthy xs))
        λ n t ((_, wrote, put), moved_on).
          no_error (n == 1) (λ e. e) (Healthy-Frame wrote healthy)
            (
              refl,
              record {
                held = record {
                  ready = Ready-Frame (omega (arith, h.position)) wrote h.held.ready;
                  holds = λ i.
                      ap (λ g. g (i + data_offset))
                        (put ∙ ap (λ p. patch s.file.bytes p xs) h.position)
                      ∙ patch_shift _ memory address data_offset xs i (h.held.holds i);
                };
                position = moved_on ∙ omega (arith, h.position);
              },
            )

  store_part-Returns :
      (job : Job) (address : ℕ) {s : State}
      → At memory address s
      → Storable job
      → address + job.bytes ≤ files_size
      → Returns
          (λ n t. (n ≡ pos job.bytes) × At (stored_at job address) (address + job.bytes) t)
          (store_part job s)
  unfolding store_part
  store_part-Returns job address h a fits =
      let (base_fits, size_fits) = capref_to_capability_bounds job.cap in
      let count : as_long job.bytes ≡ pos job.bytes = ground (arith, a.inside) in
      Returns-bind (rawwrite_store-Returns job address h a fits) λ err t (fine, there).
        Returns-else (is_nonzero err) _ _ (ap is_nonzero fine) (returns (count, there))

  store-Returns :
      (job : Job) (address : ℕ) {s : State}
      → At memory address s
      → Storable job
      → address + job.bytes ≤ files_size
      → Returns
          (λ th t.
            (th ≡ answered (pos job.bytes, []))
            × At (stored_at job address) (address + job.bytes) t)
          (advance (placed job) s)
  unfolding advance
  store-Returns job address h a fits =
      Returns-bind (store_part-Returns job address h a fits)
        λ n t (same, there). returns (ap (λ k. answered (k, [])) same, there)

module _ (memory : ℕ → ℕ) (mine other : Job) where
  -- On a ready file (of the expected size, on which every call works) whose data is the given
  -- memory, one thread writes through a writable capability and another one reads through a
  -- readable capability, ranges that end inside them and inside the data region; the validity bits
  -- of the range that is written can be marked, and its buffer is long enough. If the writing
  -- thread seeks, then the reading one, and then the first writes and the second reads, the first
  -- returns its count of bytes but the bytes lie at the place of the reader, whatever that
  -- capability permits, and the reader has what follows them, where that many bytes follow in the
  -- data region.
  pub interleave_overwrites :
      (s : State)
      → Holds memory s
      → Storable mine
      → Allowed other
      → place other + mine.bytes + other.bytes ≤ files_size
      → let after = stored_at memory mine (place other) in
        Returns
          (λ ths t.
            (ths
              ≡ answered (pos mine.bytes, [])
                ∷ answered (found_at after other (place other + mine.bytes))
                ∷ [])
            × Holds after t)
          (interleave (0 ∷ 1 ∷ 0 ∷ 1 ∷ []) (storing mine ∷ waiting other ∷ []) s)
  unfolding interleave
  interleave_overwrites s h a b room =
      let after = stored_at memory mine (place other) in
      let fine = answered (pos mine.bytes, []) in
      let late = answered (found_at after other (place other + mine.bytes)) in
      next_turn 0 (1 ∷ 0 ∷ 1 ∷ []) (storing mine ∷ waiting other ∷ [])
        (placed mine ∷ waiting other ∷ []) s
        (first_turn (storing mine) (placed mine) _ s (place-Returns memory mine h a))
        λ t p.
          next_turn 1 (0 ∷ 1 ∷ []) (placed mine ∷ waiting other ∷ [])
            (placed mine ∷ sought other ∷ []) t
            (second_turn _ (waiting other) (sought other) [] t (seek-Returns memory other p.held b))
            λ u q.
              next_turn 0 (1 ∷ []) (placed mine ∷ sought other ∷ []) (fine ∷ sought other ∷ []) u
                (first_turn (placed mine) fine _ u
                  (store-Returns memory mine (place other) q a (omega arith)))
                λ v r.
                  next_turn 1 [] (fine ∷ sought other ∷ []) (fine ∷ late ∷ []) v
                    (second_turn _ (sought other) late [] v
                      (fetch-Returns after other (place other + mine.bytes) r b room))
                    λ w z. returns (refl, z.held)
