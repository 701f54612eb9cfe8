-- ===== src/Backend/Threads.antt =====
-- `capfs_backend_read` and `capfs_backend_write` of src/backends/files.c, as the threads of FUSE run
-- it: the calls on the one stream that they share come one after the other, but in any order. A turn
-- of a thread goes up to the seek, or from there to the answer.
pub mod Parts
pub mod Serial
pub mod Turns
pub mod Race
pub mod Stores
pub mod Atomic
use capfs.Base.{ℕ, zero, suc, not, Option, none, some, List, [], ◌∷◌, ◌++◌, ℤ, pos, neg, eacces}
use capfs.Base.{ltb, leb, ◌==◌, if◌then◌else◌, add64, is_negative, is_nonzero, length, take}
use capfs.Machine.{M, pure, ◌>>=◌, ◌>>◌, gets, assert, fseek, fread, fwrite, ferror, overlay}
use capfs.Capability.{perm_read, perm_write, permits, capref_to_capability}
use capfs.Metadata.{is_open}
use capfs.Capstore.{capstore_addr2offset}
use capfs.Backend.{as_long, metadata_clear_valid_bits}

-- The arguments of a read or a write.
pub record Job : Type 0 where
  pub cap : ℕ
  pub offset : ℕ
  pub buffer : List ℕ
  pub bytes : ℕ

-- `capstore_rawread` up to its seek: an answer of the read, or none yet.
unfoldable pub rawread_seek : Job → ℕ → M (Option (ℤ × List ℕ))
rawread_seek job at = do
  opened ← is_open
  if not opened then pure (some (neg 1, job.buffer)) else do
    data_size ← gets λ s. s.data_size
    if leb data_size (add64 at job.bytes) then pure (some (neg 1, job.buffer)) else do
      failed ← fseek (capstore_addr2offset at)
      if failed then pure (some (neg 1, job.buffer)) else pure none

-- `capfs_backend_read` up to there.
unfoldable pub seek_part : Job → M (Option (ℤ × List ℕ))
seek_part job =
    let c = capref_to_capability job.cap in
    if not (permits c perm_read)
    then pure (some (neg eacces, job.buffer))
    else if is_negative job.offset
    then pure (some (neg 1, job.buffer))
    else if leb c.size (add64 job.offset job.bytes)
    then pure (some (neg 1, job.buffer))
    else do
      assert (ltb (add64 job.offset job.bytes) c.size)
      rawread_seek job (add64 c.base job.offset)

-- The rest of `capstore_rawread`.
unfoldable pub rawread_fetch : Job → M (ℤ × List ℕ)
rawread_fetch job = do
  got ← fread job.bytes
  if length got == 1
      then pure (pos 0, overlay got job.buffer)
      else do e ← ferror; pure (pos e, overlay got job.buffer)

-- What `capfs_backend_read` makes of its result.
abbrev pub checked : Job → ℤ × List ℕ → M (ℤ × List ℕ)
checked job (err, got) = if is_nonzero err then pure (neg 1, got) else pure (as_long job.bytes, got)

unfoldable pub fetch_part : Job → M (ℤ × List ℕ)
fetch_part job = rawread_fetch job >>= checked job

-- `capstore_rawwrite` up to its seek: an answer of the write, or none yet.
unfoldable pub rawwrite_seek : Job → ℕ → M (Option ℤ)
rawwrite_seek job at = do
  opened ← is_open
  if not opened then pure (some (neg 1)) else do
    data_size ← gets λ s. s.data_size
    if leb data_size (add64 at job.bytes) then pure (some (neg 1)) else do
      failed ← fseek (capstore_addr2offset at)
      if failed then pure (some (neg 1)) else pure none

-- `capfs_backend_write` up to there.
unfoldable pub place_part : Job → M (Option ℤ)
place_part job =
    let c = capref_to_capability job.cap in
    if not (permits c perm_write)
    then pure (some (neg eacces))
    else if is_negative job.offset
    then pure (some (neg 1))
    else if leb c.size (add64 job.offset job.bytes)
    then pure (some (neg 1))
    else do
      _ ←
          metadata_clear_valid_bits (add64 c.base job.offset)
            (add64 (add64 c.base job.offset) job.bytes)
      assert (ltb (add64 job.offset job.bytes) c.size)
      rawwrite_seek job (add64 c.base job.offset)

-- The rest of `capstore_rawwrite`, and of `capfs_backend_write`.
unfoldable pub rawwrite_store : Job → M ℤ
rawwrite_store job = do
  written ← fwrite (take job.bytes job.buffer)
  if written == 1 then pure (pos 0) else do e ← ferror; pure (pos e)

unfoldable pub store_part : Job → M ℤ
store_part job = do
  err ← rawwrite_store job
  if is_nonzero err then pure (neg 1) else pure (as_long job.bytes)

-- Where a thread stands.
pub data Thread : Type 0 where
  waiting : Job → Thread
  sought : Job → Thread
  storing : Job → Thread
  placed : Job → Thread
  answered : ℤ × List ℕ → Thread

abbrev pub after_seek : Job → Option (ℤ × List ℕ) → Thread
after_seek job none = sought job
after_seek job (some r) = answered r

-- A write fills nothing in.
abbrev pub after_place : Job → Option ℤ → Thread
after_place job none = placed job
after_place job (some status) = answered (status, [])

-- A turn of a thread.
unfoldable pub advance : Thread → M Thread
advance (waiting job) = seek_part job >>= λ r. pure (after_seek job r)
advance (sought job) = fetch_part job >>= λ r. pure (answered r)
advance (storing job) = place_part job >>= λ r. pure (after_place job r)
advance (placed job) = store_part job >>= λ status. pure (answered (status, []))
advance (answered r) = pure (answered r)

-- A turn of the thread at a position.
unfoldable pub turn : ℕ → List Thread → M (List Thread)
turn i [] = pure []
turn zero (th ∷ ths) = advance th >>= λ th'. pure (th' ∷ ths)
turn (suc i) (th ∷ ths) = turn i ths >>= λ ths'. pure (th ∷ ths')

-- The turns of a schedule.
unfoldable pub interleave : List ℕ → List Thread → M (List Thread)
interleave [] ths = pure ths
interleave (i ∷ is) ths = turn i ths >>= interleave is
