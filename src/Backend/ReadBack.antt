-- ===== src/Backend/ReadBack.antt =====
-- `capfs_backend_write` and then `capfs_backend_read` of src/backends/files.c.
use capfs.Base.{ℕ, ◌+◌, ◌/◌, ◌%◌, ◌≤◌, ◌<◌, ◌≡◌, ap, ◌∙◌, true, List, pos}
use capfs.Base.{length, take}
use capfs.Machine.{State, overlay, ◌>>=◌}
use capfs.Machine.Post.{Returns, Returns-bind, Returns-mono}
use capfs.Machine.Bytes.{slice-patch-take, slice_ext}
use capfs.Backend.Confined.{data_byte}
use capfs.Capability.{perm_read, perm_write, permits, capref_to_capability}
use capfs.Metadata.{files_size}
use capfs.Backend.{capfs_backend_read, capfs_backend_write}
use capfs.Backend.ReadWrite.{Ready, data_slice, Written, read-Returns, write-Returns}

module _ (cap offset bytes : ℕ) {s : State} (r : Ready s)
    (inside : offset + bytes < (capref_to_capability cap).size)
    (stored : (capref_to_capability cap).base + offset + bytes < files_size) where
  -- The data of the range, once it is written.
  pub data_slice-Written :
      (wbuf : List ℕ) {t : State}
      → bytes ≤ length wbuf
      → Written cap offset bytes r inside stored wbuf t
      → data_slice t ((capref_to_capability cap).base + offset) bytes ≡ take bytes wbuf
  unfolding data_slice
  data_slice-Written wbuf long w =
      slice_ext _ _ _ bytes (λ i _ _. w.data_put i)
      ∙ slice-patch-take (data_byte s) ((capref_to_capability cap).base + offset) bytes wbuf long

  -- On a file of the expected size on which every call works, a write through a readable and
  -- writable capability, followed by a read of the same range, returns the number of bytes and
  -- fills the front of the read buffer with what was written, if the range ends inside the
  -- capability and at least 16 bytes before the end of the data region, and begins at a whole word
  -- of validity bits.
  pub read-write :
      (wbuf rbuf : List ℕ)
      → permits (capref_to_capability cap) perm_read ≡ true
      → permits (capref_to_capability cap) perm_write ≡ true
      → bytes ≤ length wbuf
      → ((capref_to_capability cap).base + offset) / 8 % 32 ≡ 0
      → (capref_to_capability cap).base + offset + bytes + 16 ≤ files_size
      → Returns
          (λ (status, buffer) _. (status ≡ pos bytes) × (buffer ≡ overlay (take bytes wbuf) rbuf))
          ((capfs_backend_write cap offset wbuf bytes >>= λ _.
              capfs_backend_read cap offset rbuf bytes)
            s)
  read-write wbuf rbuf readable writable long aligned room =
      Returns-bind (write-Returns cap offset bytes r inside stored wbuf writable long aligned room)
        λ status t (_, w).
          Returns-mono (read-Returns cap offset bytes w.ready inside stored rbuf readable)
            λ got u (fine, read, _).
              (fine, read ∙ ap (λ xs. overlay xs rbuf) (data_slice-Written wbuf long w))
