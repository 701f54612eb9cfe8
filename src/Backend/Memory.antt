-- ===== src/Backend/Memory.antt =====
-- What src/backends/files.c promises, without its file: a memory of bytes, and the effect of each
-- request on it. The requests are those that FUSE operations and src/filesystem.c make.
use capfs.Base.{ℕ, ◌+◌, ◌-◌, ◌/◌, ◌%◌, ◌≤◌, ◌<◌, ◌^◌, ◌≡◌, not, List, [], ◌∷◌, ℤ, pos, neg, eacces}
use capfs.Base.{leb, ltb, is_negative, if◌then◌else◌, length, take, ◌&&◌}
use capfs.Machine.{M, pure, ◌>>=◌, slice, patch, overlay, le_bytes}
use capfs.Capability.{perm_read, perm_write, permits, capability_compres, capref_to_capability}
use capfs.Metadata.{files_size}
use capfs.Metadata.Decided.{can_mark}
use capfs.Backend.{capfs_backend_read, capfs_backend_write, capfs_backend_zero}
use capfs.Backend.{capfs_backend_get_cap, capfs_backend_put_cap}

pub data Request : Type 0 where
  read : (cap offset : ℕ) (rbuf : List ℕ) (bytes : ℕ) → Request
  write : (cap offset : ℕ) (wbuf : List ℕ) (bytes : ℕ) → Request
  zero : (cap : ℕ) → Request
  get_cap : (cap offset old : ℕ) → Request
  put_cap : (cap offset newcap : ℕ) → Request

-- What is given back, where nothing is filled in, and where a reference is.
abbrev pub plain : ℤ → ℤ × List ℕ
plain status = (status, [])

abbrev pub loaded : ℤ × ℕ → ℤ × List ℕ
loaded (status, ret) = (status, ret ∷ [])

-- The call of a request: its status, and the buffer or the reference that it fills in.
unfoldable pub perform : Request → M (ℤ × List ℕ)
perform (read cap offset rbuf bytes) = capfs_backend_read cap offset rbuf bytes
perform (write cap offset wbuf bytes) =
    capfs_backend_write cap offset wbuf bytes >>= λ status. pure (plain status)
perform (zero cap) = capfs_backend_zero cap >>= λ status. pure (plain status)
perform (get_cap cap offset old) = capfs_backend_get_cap cap offset old >>= λ r. pure (loaded r)
perform (put_cap cap offset newcap) =
    capfs_backend_put_cap cap offset newcap >>= λ status. pure (plain status)

-- The effect of a request: a reply and a memory, or the end of the program.
pub data Effect : Type 0 where
  done : ℤ → List ℕ → (ℕ → ℕ) → Effect
  abort : Effect

-- The memory with zeros from `lo` up to `hi`.
unfoldable pub zeroed : (ℕ → ℕ) → ℕ → ℕ → ℕ → ℕ
zeroed memory lo hi i = if leb lo i && ltb i hi then 0 else memory i

unfoldable pub specify : Request → (ℕ → ℕ) → Effect
specify (read cap offset rbuf bytes) memory =
    let c = capref_to_capability cap in
    if not (permits c perm_read)
    then done (neg eacces) rbuf memory
    else if is_negative offset
    then done (neg 1) rbuf memory
    else if leb c.size (offset + bytes)
    then done (neg 1) rbuf memory
    else done (pos bytes) (overlay (slice memory (c.base + offset) bytes) rbuf) memory
specify (write cap offset wbuf bytes) memory =
    let c = capref_to_capability cap in
    let at = c.base + offset in
    if not (permits c perm_write)
    then done (neg eacces) [] memory
    else if is_negative offset
    then done (neg 1) [] memory
    else if leb c.size (offset + bytes)
    then done (neg 1) [] memory
    else if can_mark (at / 8) ((at + bytes + 7) / 8)
    then done (pos bytes) [] (patch memory at (take bytes wbuf))
    else abort
specify (zero cap) memory =
    let c = capref_to_capability cap in
    if not (permits c perm_write)
    then done (neg eacces) [] memory
    else done (pos 0) [] (zeroed memory c.base (c.base + c.size - 256))
specify (get_cap cap offset old) memory =
    let c = capref_to_capability cap in
    if not (permits c perm_read)
    then done (neg eacces) (old ∷ []) memory
    else if leb c.size (offset + 8)
    then done (neg 1) (old ∷ []) memory
    else done (neg eacces) (old ∷ []) memory
specify (put_cap cap offset newcap) memory =
    let c = capref_to_capability cap in
    let at = c.base + offset in
    if not (permits c perm_write)
    then done (neg eacces) [] memory
    else if leb c.size (offset + 8)
    then done (neg 1) [] memory
    else if can_mark (at / 8) ((at + 7) / 8)
    then done (pos 0) []
        (patch memory at (le_bytes 8 (capability_compres (capref_to_capability newcap))))
    else abort

-- The capability stands for data that the file has.
abbrev pub IsStored : ℕ → Type 0
IsStored cap = let c = capref_to_capability cap in c.base + c.size ≤ files_size

-- Requests with a count below 2^63 and a buffer that is as long, an offset below 2^63 for a
-- capability, and whole blocks to be zeroed.
abbrev pub IsAdmissible : Request → Type 0
IsAdmissible (read cap offset rbuf bytes) = IsStored cap × (bytes < 2 ^ 63)
IsAdmissible (write cap offset wbuf bytes) = IsStored cap × (bytes < 2 ^ 63) × (bytes ≤ length wbuf)
IsAdmissible (zero cap) =
    let c = capref_to_capability cap in
    IsStored cap × (c.base % 256 ≡ 0) × (c.size % 256 ≡ 0) × (0 < c.size)
IsAdmissible (get_cap cap offset old) = IsStored cap × (offset < 2 ^ 63)
IsAdmissible (put_cap cap offset newcap) = IsStored cap × (offset < 2 ^ 63)

-- A sequence of requests, one after the other, with their replies.
unfoldable pub perform_all : List Request → M (List (ℤ × List ℕ))
perform_all [] = pure []
perform_all (q ∷ qs) = perform q >>= λ r. perform_all qs >>= λ rs. pure (r ∷ rs)

pub data Effects : Type 0 where
  replies : List (ℤ × List ℕ) → (ℕ → ℕ) → Effects
  stopped : Effects

abbrev pub prepend : ℤ × List ℕ → Effects → Effects
prepend r (replies rs memory) = replies (r ∷ rs) memory
prepend r stopped = stopped

abbrev pub after : Effect → ((ℕ → ℕ) → Effects) → Effects
after (done status buffer memory) next = prepend (status, buffer) (next memory)
after abort next = stopped

unfoldable pub specify_all : List Request → (ℕ → ℕ) → Effects
specify_all [] memory = replies [] memory
specify_all (q ∷ qs) memory = after (specify q memory) (specify_all qs)

abbrev pub AreAdmissible : List Request → Type 0
AreAdmissible [] = Unit {0}
AreAdmissible (q ∷ qs) = IsAdmissible q × AreAdmissible qs
