-- ===== src/Backend/Threads/Turns.antt =====
-- What a turn of a thread that reads does when every call on the file works.
use capfs.Base.{
  ℕ, ◌+◌, ◌<◌, ◌≤◌, ◌≡◌, refl, sym, ap, ap₂, ◌∙◌, true, not, none, List, ℤ, pos, arith, ltb, leb,
  ◌==◌, add64, is_negative, is_nonzero, length,
}
use capfs.Machine.{State, slice, overlay}
use capfs.Machine.Post.{Returns, returns, Returns-bind, Returns-else, Returns-assert, Returns-and}
use capfs.Machine.Healthy.{Healthy-Frame, fseek-Returns, fread-Returns, fread-Moves}
use capfs.Machine.Bytes.{slice_shift, slice_ext}
use capfs.Capability.{perm_read, permits, capref_to_capability}
use capfs.Capability.RoundTrip.{capref_to_capability_bounds}
use capfs.Metadata.{data_offset, files_size}
use capfs.Capstore.{capstore_addr2offset}
use capfs.Capstore.Access.{no_error}
use capfs.Backend.{as_long}
use capfs.Backend.Confined.{data_byte}
use capfs.Backend.Settled.{Holds}
use capfs.Backend.Refines.{Holds-Frame}
use capfs.Backend.Threads.{
  Job, rawread_seek, seek_part, rawread_fetch, checked, fetch_part, waiting, sought, answered,
  after_seek, advance,
}

-- Where the data of a read begin.
abbrev pub place : Job → ℕ
place job = (capref_to_capability job.cap).base + job.offset

-- A read through a readable capability, of a range that ends inside it and inside the data region.
pub record Allowed (job : Job) : Type 0 where
  pub readable : permits (capref_to_capability job.cap) perm_read ≡ true
  pub inside : job.offset + job.bytes < (capref_to_capability job.cap).size
  pub stored : place job + job.bytes < files_size

-- The file holds the memory, and its position is at an address of the data.
pub record At (memory : ℕ → ℕ) (address : ℕ) (t : State) : Type 0 where
  pub held : Holds memory t
  pub position : t.file.position ≡ address + data_offset

module _ (memory : ℕ → ℕ) where
  rawread_seek-Returns :
      (job : Job) (at : ℕ) {s : State}
      → Holds memory s
      → at + job.bytes < files_size
      → Returns (λ r t. (r ≡ none) × At memory at t) (rawread_seek job at s)
  unfolding rawread_seek
  rawread_seek-Returns job at {s} h stored =
      Returns-else (not s.file.opened) _ _ (ground (arith, h.ready.healthy.opened)) (
        Returns-else (leb s.data_size (add64 at job.bytes)) _ _ (ground (arith, h.ready.data_size))
          (Returns-bind (fseek-Returns h.ready.healthy (capstore_addr2offset at) (omega arith))
            λ failed t (worked, same, there). Returns-else failed _ _ worked (
              returns
                (refl, record { held = Holds-Frame same h; position = there ∙ omega arith }))))

  seek_part-Returns :
      (job : Job) {s : State}
      → Holds memory s
      → Allowed job
      → Returns (λ r t. (r ≡ none) × At memory (place job) t) (seek_part job s)
  unfolding seek_part
  seek_part-Returns job {s} h a =
      let c = capref_to_capability job.cap in
      let (base_fits, size_fits) = capref_to_capability_bounds job.cap in
      let at : add64 c.base job.offset ≡ place job = omega (arith, a.inside) in
      Returns-else (not (permits c perm_read)) _ _ (ap not a.readable) (
        Returns-else (is_negative job.offset) _ _ (ground (arith, a.inside)) (
          Returns-else (leb c.size (add64 job.offset job.bytes)) _ _ (ground (arith, a.inside)) (
            Returns-assert (ltb (add64 job.offset job.bytes) c.size) _ (ground (arith, a.inside))
              (rw at (rawread_seek-Returns job (place job) h a.stored)))))

  pub seek-Returns :
      (job : Job) {s : State}
      → Holds memory s
      → Allowed job
      → Returns (λ th t. (th ≡ sought job) × At memory (place job) t) (advance (waiting job) s)
  unfolding advance
  seek-Returns job h a =
      Returns-bind (seek_part-Returns job h a)
        λ r t (none', there). returns (ap (after_seek job) none', there)

  -- What is read at an address.
  abbrev pub found_at : Job → ℕ → ℤ × List ℕ
  found_at job address = (pos job.bytes, overlay (slice memory address job.bytes) job.buffer)

  slice-At :
      (address n : ℕ) {s : State}
      → At memory address s
      → slice s.file.bytes s.file.position n ≡ slice memory address n
  unfolding data_byte
  slice-At address n {s} h =
      ap (λ p. slice s.file.bytes p n) h.position
      ∙ sym (slice_shift s.file.bytes data_offset address n)
      ∙ slice_ext _ memory address n (λ i _ _. h.held.holds i)

  rawread_fetch-Returns :
      (job : Job) (address : ℕ) {s : State}
      → At memory address s
      → address + job.bytes ≤ files_size
      → Returns
          (λ r t.
            (r ≡ (pos 0, overlay (slice memory address job.bytes) job.buffer))
            × At memory (address + job.bytes) t)
          (rawread_fetch job s)
  unfolding rawread_fetch
  rawread_fetch-Returns job address {s} h fits =
      let room : s.file.position + job.bytes ≤ s.file.size =
        omega (arith, h.position, h.held.ready.full_size) in
      let healthy = h.held.ready.healthy in
      Returns-bind
        (Returns-and (fread-Returns healthy job.bytes room) (fread-Moves healthy job.bytes room))
        λ got t ((read, same), moved_on).
          no_error (length got == 1) (λ e. (e, overlay got job.buffer)) (Healthy-Frame same healthy)
            (
              ap (λ xs. (pos 0, overlay xs job.buffer)) (read ∙ slice-At address job.bytes h),
              record {
                held = Holds-Frame same h.held;
                position = moved_on ∙ omega (arith, h.position);
              },
            )

  checked-Returns :
      (job : Job) {Q : State → Type 0} {buffer : List ℕ} (r : ℤ × List ℕ) (t : State)
      → Allowed job
      → r ≡ (pos 0, buffer)
      → Q t
      → Returns (λ x u. (x ≡ (pos job.bytes, buffer)) × Q u) (checked job r t)
  checked-Returns job {buffer} r t a same q =
      let (base_fits, size_fits) = capref_to_capability_bounds job.cap in
      let count : as_long job.bytes ≡ pos job.bytes = ground (arith, a.inside) in
      Returns-else (is_nonzero r.0) _ _ (ap (λ x. is_nonzero x.0) same)
        (returns (ap₂ (λ n xs. (n, xs)) count (ap (λ x. x.1) same), q))

  fetch_part-Returns :
      (job : Job) (address : ℕ) {s : State}
      → At memory address s
      → Allowed job
      → address + job.bytes ≤ files_size
      → Returns
          (λ r t. (r ≡ found_at job address) × At memory (address + job.bytes) t)
          (fetch_part job s)
  unfolding fetch_part
  fetch_part-Returns job address h a fits =
      Returns-bind (rawread_fetch-Returns job address h fits)
        λ r t (found, there). checked-Returns job r t a found there

  pub fetch-Returns :
      (job : Job) (address : ℕ) {s : State}
      → At memory address s
      → Allowed job
      → address + job.bytes ≤ files_size
      → Returns
          (λ th t. (th ≡ answered (found_at job address)) × At memory (address + job.bytes) t)
          (advance (sought job) s)
  unfolding advance
  fetch-Returns job address h a fits =
      Returns-bind (fetch_part-Returns job address h a fits)
        λ r t (found, there). returns (ap answered found, there)
