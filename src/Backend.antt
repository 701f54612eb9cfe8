-- ===== src/Backend.antt =====
-- src/backends/files.c, lines 277 to 285 and 433 to 698: the operations that the file system calls. An
-- `off_t` is its 64-bit pattern; sums wrap at 2^64. A `capfs_capref_t` is its number.
pub mod Clients
pub mod Confined
pub mod ReadBack
pub mod Zeroed
pub mod Settled
pub mod Ended
pub mod Sized
pub mod Memory
pub mod Refines
pub mod Refined
pub mod Escaped
pub mod Slots
pub mod Isolated
pub mod Answered
pub mod Threads
pub mod Loads
pub mod ReadWrite
use capfs.Base.{ℕ, zero, suc, ◌+◌, ◌-◌, ◌/◌, ◌^◌, true, false, not, List}
use capfs.Base.{ℤ, pos, neg, is_nonzero, eacces, ltb, leb, ◌==◌, if◌then◌else◌}
use capfs.Base.{add64, is_negative, replicate}
use capfs.Machine.{M, out_of_fuel, pure, ◌>>=◌, ◌>>◌, assert, le_bytes, from_le_bytes}
use capfs.Capability.{perm_read, perm_write, permits, capability_decompress}
use capfs.Capability.{capability_compres, capref_to_capability, capability_to_capref}
use capfs.Metadata.{metadata_is_capability, metadata_valid_bits_generic}
use capfs.Capstore.{capstore_rawread, capstore_rawwrite}

unfoldable pub metadata_clear_valid_bits : ℕ → ℕ → M ℤ
metadata_clear_valid_bits from to = metadata_valid_bits_generic from to false

unfoldable pub metadata_set_valid_bits : ℕ → ℕ → M ℤ
metadata_set_valid_bits from to = metadata_valid_bits_generic from to true

unfoldable pub capfs_backend_cap_get_perms : ℕ → ℕ
unfolding capref_to_capability
capfs_backend_cap_get_perms cap = (capref_to_capability cap).perms

unfoldable pub capfs_backend_cap_get_size : ℕ → ℕ
unfolding capref_to_capability
capfs_backend_cap_get_size cap = (capref_to_capability cap).size

-- The second result is `*retcap`, which is given as `old`.
unfoldable pub capfs_backend_get_cap : ℕ → ℕ → ℕ → M (ℤ × ℕ)
capfs_backend_get_cap cap offset old =
    let c = capref_to_capability cap in
    if not (permits c perm_read)
    then pure (neg eacces, old)
    else if leb c.size (add64 offset 8)
    then pure (neg 1, old)
    else do
      valid ← metadata_is_capability offset
      if valid == 0 then pure (neg eacces, old) else do
        (err, buffer) ← capstore_rawread (add64 c.base offset) (le_bytes 8 0) 8
        if is_nonzero err
            then pure (err, old)
            else pure (pos 0, capability_to_capref (capability_decompress (from_le_bytes buffer)))

unfoldable pub capfs_backend_put_cap : ℕ → ℕ → ℕ → M ℤ
capfs_backend_put_cap cap offset newcap =
    let c = capref_to_capability cap in
    if not (permits c perm_write)
    then pure (neg eacces)
    else if leb c.size (add64 offset 8)
    then pure (neg 1)
    else do
      let stored = capability_compres (capref_to_capability newcap)
      err ← capstore_rawwrite (add64 c.base offset) (le_bytes 8 stored) 8
      if is_nonzero err
          then pure err
          else metadata_set_valid_bits (add64 c.base offset) (add64 c.base offset)

-- A `size_t` that is returned as a `long`.
abbrev pub as_long : ℕ → ℤ
as_long n = if is_negative n then neg (2 ^ 64 - n) else pos n

unfoldable pub capfs_backend_read : ℕ → ℕ → List ℕ → ℕ → M (ℤ × List ℕ)
capfs_backend_read cap offset rbuf bytes =
    let c = capref_to_capability cap in
    if not (permits c perm_read)
    then pure (neg eacces, rbuf)
    else if is_negative offset
    then pure (neg 1, rbuf)
    else if leb c.size (add64 offset bytes)
    then pure (neg 1, rbuf)
    else do
      assert (ltb (add64 offset bytes) c.size)
      (err, buffer) ← capstore_rawread (add64 c.base offset) rbuf bytes
      if is_nonzero err then pure (neg 1, buffer) else pure (as_long bytes, buffer)

unfoldable pub capfs_backend_write : ℕ → ℕ → List ℕ → ℕ → M ℤ
capfs_backend_write cap offset wbuf bytes =
    let c = capref_to_capability cap in
    if not (permits c perm_write)
    then pure (neg eacces)
    else if is_negative offset
    then pure (neg 1)
    else if leb c.size (add64 offset bytes)
    then pure (neg 1)
    else do
      _ ← metadata_clear_valid_bits (add64 c.base offset) (add64 (add64 c.base offset) bytes)
      assert (ltb (add64 offset bytes) c.size)
      err ← capstore_rawwrite (add64 c.base offset) wbuf bytes
      if is_nonzero err then pure (neg 1) else pure (as_long bytes)

-- `static const char zero[256]`
abbrev pub zero_block : List ℕ
zero_block = replicate 256 0

unfoldable pub zero_loop : ℕ → ℕ → ℕ → ℕ → M (Unit {0})
zero_loop zero cap size offset = λ _. out_of_fuel
zero_loop (suc rounds) cap size offset =
    let rest =
      capfs_backend_write cap offset zero_block
        (if ltb (add64 offset 256) size then 256 else size - offset)
      >>= λ _. zero_loop rounds cap size (add64 offset 256) in
    if ltb offset size then rest else pure tt

unfoldable pub capfs_backend_zero : ℕ → M ℤ
capfs_backend_zero cap =
    let c = capref_to_capability cap in
    if not (permits c perm_write)
    then pure (neg eacces)
    else do zero_loop (c.size / 256 + 2) cap c.size 0; pure (pos 0)
