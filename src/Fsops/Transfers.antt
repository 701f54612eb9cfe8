-- ===== src/Fsops/Transfers.antt =====
-- `capfs_op_read` and `capfs_op_write` on an open file, over the file backend.
use capfs.Base.{
  ℕ, ◌+◌, ◌/◌, ◌%◌, ◌^◌, ◌≤◌, ◌<◌, ◌≡◌, ◌≢◌, refl, ap, ◌∙◌, ap₂, ℤ, inl, inr, Bool-cases,
  if◌then◌else◌, Bool, true, false, not, some, List, pos,
}
use capfs.Base.{ltb, ◌==◌, arith, length, take}
use capfs.Machine.{State, M, overlay, ◌>>=◌}
use capfs.Machine.Post.{Leads, ends, Leads-bind, Leads-if, Returns, returns, Returns-bind}
use capfs.Machine.Post.{Returns-else, Returns-mono}
use capfs.Capability.{perm_read, perm_write, permits, capref_to_capability}
use capfs.Metadata.{files_size}
use capfs.CapfsFile.{CapfsFile}
use capfs.Backend.Confined.{Confined, write-Confined}
use capfs.Backend.ReadWrite.{Ready, Written, data_slice, write-Returns, read-Returns}
use capfs.Backend.ReadBack.{data_slice-Written}
use capfs.Filesystem.{MetaData}
use capfs.Filetype.{filetype_file}
use capfs.Handle.{Handle, Heap}
use capfs.Layer.{Layer, files_layer}
use capfs.Fsops.{target, deref, path_given, as_int, capfs_op_read, capfs_op_write}

module _ (local : ℕ → CapfsFile) (content_cap : ℕ → ℕ) (copied : Bool) (cap : ℕ) (md : MetaData)
    (heap : Heap) (path : List ℕ) (fh : ℕ) (h : Handle) (live : heap.live fh ≡ some h)
    (given : fh ≢ 0) where
  abbrev layer : Layer
  layer = files_layer local content_cap copied

  -- A live handle is what is looked at.
  at_handle :
      {A : Type 0} (found : Handle → M A) (failed : M A)
      → target layer cap md heap (some path) (some fh) found failed ≡ found h
  unfolding target deref
  at_handle found failed =
      let not_null : (fh == 0) ≡ false = ground (arith, given) in
      rw not_null (ap (λ o. deref o found) live)

  -- Through a live handle, `capfs_op_write` of fewer than 2^63 bytes changes no data outside the
  -- capability of the handle, if it returns, whatever the path, the offset and the outcome of the
  -- I/O calls.
  pub op_write-Confined :
      (wbuf : List ℕ) (size offset : ℕ) (s : State)
      → size < 2 ^ 63
      → let c = capref_to_capability h.cap in
        Leads
          (λ _ t. Confined c.base (c.base + c.size) s t)
          (capfs_op_write layer cap md heap (some path) wbuf size offset (some fh) s)
  unfolding capfs_op_write path_given
  op_write-Confined wbuf size offset s small = rw (at_handle _ _) (
      Leads-if (not (h.type == filetype_file)) _ _ (λ _. ends λ i out. refl)
        λ _.
          Leads-if (ltb h.size offset) _ _ (λ _. ends λ i out. refl)
            λ _. Leads-bind (write-Confined h.cap offset wbuf size s small) λ r t same. ends same)

  module _ (size offset : ℕ) {s : State} (r : Ready s)
      (inside : offset + size < (capref_to_capability h.cap).size)
      (stored : (capref_to_capability h.cap).base + offset + size < files_size)
      (file : h.type ≡ filetype_file) (below : offset ≤ h.size) (small : size < 2 ^ 31) where
    as_int-small : as_int (pos size) ≡ pos size
    as_int-small = ground arith

    put-Returns :
        (wbuf : List ℕ)
        → permits (capref_to_capability h.cap) perm_write ≡ true
        → size ≤ length wbuf
        → ((capref_to_capability h.cap).base + offset) / 8 % 32 ≡ 0
        → (capref_to_capability h.cap).base + offset + size + 16 ≤ files_size
        → Returns
            (λ status t. (status ≡ pos size) × Written h.cap offset size r inside stored wbuf t)
            (capfs_op_write layer cap md heap (some path) wbuf size offset (some fh) s)
    unfolding capfs_op_write path_given
    put-Returns wbuf writable long aligned room = rw (at_handle _ _) (
        Returns-else (not (h.type == filetype_file)) _ _ (ground arith) (
          Returns-else (ltb h.size offset) _ _ (ground arith) (
            Returns-bind
              (write-Returns h.cap offset size r inside stored wbuf writable long aligned room)
              λ n t (e, w). returns (ap as_int e ∙ as_int-small, w))))

    got-Returns :
        (rbuf : List ℕ)
        → permits (capref_to_capability h.cap) perm_read ≡ true
        → Returns
            (λ (status, buffer) _.
              (status ≡ pos size)
              × (buffer
                  ≡ overlay (data_slice s ((capref_to_capability h.cap).base + offset) size) rbuf))
            (capfs_op_read layer cap md heap (some path) rbuf size offset (some fh) s)
    unfolding capfs_op_read path_given
    got-Returns rbuf readable = rw (at_handle _ _) (
        Returns-else (not (h.type == filetype_file)) _ _ (ground arith) (
          Returns-else (ltb h.size offset) _ _ (ground arith) (
            Returns-bind (read-Returns h.cap offset size r inside stored rbuf readable)
              λ got t (e, read, _). returns (ap as_int e ∙ as_int-small, read))))

  -- What was written to an open file is read back from it.
  module _ (size offset : ℕ) {s : State} (r : Ready s)
      (inside : offset + size < (capref_to_capability h.cap).size)
      (stored : (capref_to_capability h.cap).base + offset + size < files_size)
      (file : h.type ≡ filetype_file) (below : offset ≤ h.size) (small : size < 2 ^ 31) where
    -- Through the handle of an open file, `capfs_op_write` and then `capfs_op_read` at the same
    -- offset, which is at most the size in the handle, that size included, return the number of
    -- bytes (below 2^31) and give back what was written, on a file of the expected size on which
    -- every call works and under the conditions of `read-write` on the capability of the handle.
    pub op_read-op_write :
        (wbuf rbuf : List ℕ)
        → permits (capref_to_capability h.cap) perm_read ≡ true
        → permits (capref_to_capability h.cap) perm_write ≡ true
        → size ≤ length wbuf
        → ((capref_to_capability h.cap).base + offset) / 8 % 32 ≡ 0
        → (capref_to_capability h.cap).base + offset + size + 16 ≤ files_size
        → Returns
            (λ (status, buffer) _. (status ≡ pos size) × (buffer ≡ overlay (take size wbuf) rbuf))
            ((capfs_op_write layer cap md heap (some path) wbuf size offset (some fh) >>= λ _.
                capfs_op_read layer cap md heap (some path) rbuf size offset (some fh))
              s)
    op_read-op_write wbuf rbuf readable writable long aligned room =
        Returns-bind
          (put-Returns size offset r inside stored file below small wbuf writable long aligned room)
          λ status t (_, w).
            Returns-mono
              (got-Returns size offset w.ready inside stored file below small rbuf readable)
              λ got u (fine, read). (
                fine,
                read
                    ∙ ap (λ xs. overlay xs rbuf)
                        (data_slice-Written h.cap offset size r inside stored wbuf long w),
              )

  -- A read from the end of an open file on.
  module _ (size offset : ℕ) {s : State} (r : Ready s)
      (inside : h.size + size < (capref_to_capability h.cap).size)
      (stored : (capref_to_capability h.cap).base + h.size + size < files_size)
      (file : h.type ≡ filetype_file) (past : h.size ≤ offset) (small : size < 2 ^ 31) where
    -- What `capfs_op_read` gives: the bytes behind the end at the end itself, and nothing further on.
    abbrev pub from_end : List ℕ → ℤ × List ℕ
    from_end rbuf =
        if offset == h.size
        then (
          pos size,
          overlay (data_slice s ((capref_to_capability h.cap).base + h.size) size) rbuf,
        )
        else (pos 0, rbuf)

    -- Through the handle of an open file, on a file of the expected size on which every call
    -- works, `capfs_op_read` of fewer than 2^31 bytes, from the size in the handle on or further,
    -- returns the number of bytes and the data behind the end at the end itself, if the capability
    -- is readable and that range ends inside it and inside the data region, and further on 0 with
    -- the buffer as it was.
    pub op_read_from_end :
        (rbuf : List ℕ)
        → permits (capref_to_capability h.cap) perm_read ≡ true
        → Returns
            (λ r _. r ≡ from_end rbuf)
            (capfs_op_read layer cap md heap (some path) rbuf size offset (some fh) s)
    unfolding capfs_op_read path_given
    op_read_from_end rbuf readable = elim (Bool-cases (offset == h.size)) [
      | inl at_end ↦
          let here : offset ≡ h.size = ground arith in
          rw at_end (
            rw here (
              Returns-mono
                (got-Returns size h.size r inside stored file (omega arith) small rbuf readable)
                λ got t (count, read). ap₂ (λ n xs. (n, xs)) count read))
      | inr behind ↦
          let is_file : not (h.type == filetype_file) ≡ false = ground (arith, file) in
          let further : ltb h.size offset ≡ true = ground arith in
          rw (behind, at_handle _ _, is_file, further) (returns refl)
    ]
