-- ===== src/Backend/ReadWrite.antt =====
-- What `capfs_backend_read` and `capfs_backend_write` do when every call on the file works.
use capfs.Base.{ℕ, ◌+◌, ◌*◌, ◌/◌, ◌%◌, ◌≤◌, ◌<◌, ◌≡◌, ◌≢◌, sym, ap, ◌∙◌, ◌⊎◌, inl, inr}
use capfs.Base.{true, false, not, List, arith, ltb, leb, Bool-cases, ltb→lt, pos}
use capfs.Base.{add64, is_negative, is_nonzero, length, take}
use capfs.Machine.{State, slice, patch, overlay}
use capfs.Machine.Post.{Returns, returns, Returns-bind, Returns-else}
use capfs.Machine.Post.{Returns-assert}
use capfs.Machine.Frame.{Frame}
use capfs.Machine.Healthy.{Healthy, Healthy-Frame}
use capfs.Machine.Bytes.{slice_shift, patch_shift}
use capfs.Capability.{Capability, perm_read, perm_write, permits, capref_to_capability}
use capfs.Capability.RoundTrip.{capref_to_capability_bounds}
use capfs.Metadata.{data_offset, files_size, total_size}
use capfs.Metadata.Words.{meta_word, meta_word-Frame}
use capfs.Metadata.Marked.{Marked, valid_bits-Marked}
use capfs.Capstore.Access.{rawread-Returns, rawwrite-Returns}
use capfs.Backend.{capfs_backend_read, capfs_backend_write, metadata_clear_valid_bits}
use capfs.Backend.Confined.{data_byte}

-- The file is open, of the expected size, and every call on it works.
pub record Ready (s : State) : Type 0 where
  pub healthy : Healthy s
  pub full_size : s.file.size ≡ total_size
  pub data_size : s.data_size ≡ files_size

pub Ready-Frame : {lo hi : ℕ} {s t : State} → hi ≤ total_size → Frame lo hi s t → Ready s → Ready t
Ready-Frame fits f r = record {
  healthy = Healthy-Frame f r.healthy;
  full_size = f.size (omega (arith, r.full_size)) ∙ r.full_size;
  data_size = f.data_size ∙ r.data_size;
}

-- The data from `a` on.
unfoldable pub data_slice : State → ℕ → ℕ → List ℕ
data_slice s a n = slice (data_byte s) a n

module _ (cap offset bytes : ℕ) {s : State} (r : Ready s)
    (inside : offset + bytes < (capref_to_capability cap).size)
    (stored : (capref_to_capability cap).base + offset + bytes < files_size) where
  abbrev c : Capability
  c = capref_to_capability cap

  -- On a file of the expected size on which every call works, `capfs_backend_read` through a
  -- readable capability, of a range that ends inside it and inside the data region, returns the
  -- number of bytes and the data of the range over the front of the buffer, and changes no byte of
  -- the file.
  pub read-Returns :
      (rbuf : List ℕ)
      → permits c perm_read ≡ true
      → Returns
          (λ (status, buffer) t.
            (status ≡ pos bytes)
            × (buffer ≡ overlay (data_slice s (c.base + offset) bytes) rbuf)
            × Frame 0 0 s t)
          (capfs_backend_read cap offset rbuf bytes s)
  unfolding capfs_backend_read data_slice data_byte
  read-Returns rbuf readable =
      let (base_fits, size_fits) = capref_to_capability_bounds cap in
      let at : add64 c.base offset ≡ c.base + offset = omega arith in
      Returns-else (not (permits c perm_read)) _ _ (ground arith) (
        Returns-else (is_negative offset) _ _ (ground arith) (
          Returns-else (leb c.size (add64 offset bytes)) _ _ (ground arith) (
            Returns-assert (ltb (add64 offset bytes) c.size) _ (ground arith) (
              rw at (
                Returns-bind
                  (rawread-Returns r.healthy (c.base + offset) bytes (omega (arith, r.data_size))
                    (omega (arith, r.data_size)) rbuf (omega (arith, r.full_size)))
                  λ got t (fine, read, same).
                    Returns-else (is_nonzero got.0) _ _ (ap is_nonzero fine) (
                      returns (
                        ground arith,
                        read ∙ ap (λ xs. overlay xs rbuf) (sym (slice_shift _ _ _ _)),
                        same,
                      )))))))

  -- The slot behind the range.
  abbrev pub end_slot : ℕ
  end_slot = (c.base + offset + bytes + 7) / 8

  -- What a write that starts at a whole word of validity bits leaves: the data, and the bits. The
  -- word of `end_slot` is missed where that slot is the last of its word.
  pub record Written (wbuf : List ℕ) (t : State) : Type 0 where
    pub ready : Ready t
    pub data_put :
        (i : ℕ) → data_byte t i ≡ patch (data_byte s) (c.base + offset) (take bytes wbuf) i
    pub cleared :
        (p : ℕ)
        → (c.base + offset) / 8 ≤ p
        → p < end_slot
        → end_slot % 32 ≢ 31
        → meta_word t (p / 32) ≡ 0
    pub missed : end_slot % 32 ≡ 31 → meta_word t (end_slot / 32) ≡ meta_word s (end_slot / 32)
    pub others :
        (w : ℕ)
        → (w < (c.base + offset) / 256) ⊎ ((end_slot + 1) / 32 < w)
        → w * 4 < data_offset
        → meta_word t w ≡ meta_word s w

  written :
      (wbuf : List ℕ) (t u : State)
      → (c.base + offset) / 8 % 32 ≡ 0
      → c.base + offset + bytes + 16 ≤ files_size
      → Marked false ((c.base + offset) / 256) end_slot s t
      → Frame (c.base + offset + data_offset) (c.base + offset + data_offset + bytes) t u
      → u.file.bytes ≡ patch t.file.bytes (c.base + offset + data_offset) (take bytes wbuf)
      → Written wbuf u
  unfolding data_byte
  written wbuf t u aligned room marked wrote put = record {
    ready = Ready-Frame (omega arith) wrote (Ready-Frame (omega arith) marked.frame r);
    data_put = λ i.
        ap (λ f. f (i + data_offset)) put
        ∙ patch_shift _ _ (c.base + offset) data_offset (take bytes wbuf) i
            (marked.frame.outside (i + data_offset) (inr (omega arith)));
    cleared = λ p lo hi ne. kept (p / 32) (omega arith) ∙ in_range p lo hi ne;
    missed = λ e. kept (end_slot / 32) (omega arith) ∙ marked.skipped e;
    others = λ w out fits. kept w fits ∙ meta_word-Frame w marked.frame (ground arith);
  }
    where
      kept : (w : ℕ) → w * 4 < data_offset → meta_word u w ≡ meta_word t w
      kept w fits = meta_word-Frame w wrote (inl (omega arith))

      in_range :
          (p : ℕ)
          → (c.base + offset) / 8 ≤ p
          → p < end_slot
          → end_slot % 32 ≢ 31
          → meta_word t (p / 32) ≡ 0
      in_range p lo hi ne = elim (Bool-cases (ltb (p / 32) (end_slot / 32))) [
        | inl e ↦ marked.whole (p / 32) (omega arith) (ltb→lt _ _ e)
        | inr e ↦ ap (meta_word t) (ground arith) ∙ marked.last (ground arith)
      ]

  -- Under the conditions on a write of `read-write` (a file of the expected size on which every
  -- call works, a writable capability, a range inside it and 16 bytes inside the data region, a
  -- whole word of validity bits at the start), `capfs_backend_write` returns the number of bytes,
  -- puts the bytes into the range and changes no other data; the words with the validity bits of
  -- the range are zero, unless the slot behind the range is the last of its word, whose word is
  -- then left as it was; the words in front of the range, and those behind the word of the slot
  -- after the one behind the range, stay the same.
  pub write-Returns :
      (wbuf : List ℕ)
      → permits c perm_write ≡ true
      → bytes ≤ length wbuf
      → (c.base + offset) / 8 % 32 ≡ 0
      → c.base + offset + bytes + 16 ≤ files_size
      → Returns
          (λ status t. (status ≡ pos bytes) × Written wbuf t)
          (capfs_backend_write cap offset wbuf bytes s)
  unfolding capfs_backend_write data_byte metadata_clear_valid_bits
  write-Returns wbuf writable long aligned room =
      let (base_fits, size_fits) = capref_to_capability_bounds cap in
      let at : add64 c.base offset ≡ c.base + offset = omega arith in
      let to : add64 (c.base + offset) bytes ≡ c.base + offset + bytes = omega arith in
      Returns-else (not (permits c perm_write)) _ _ (ground arith) (
        Returns-else (is_negative offset) _ _ (ground arith) (
          Returns-else (leb c.size (add64 offset bytes)) _ _ (ground arith) (
            rw (at, to)
              (Returns-bind
                (valid_bits-Marked false (c.base + offset) (c.base + offset + bytes)
                  ((c.base + offset) / 256) r.healthy (omega arith) (omega arith) (omega arith))
                λ cleared t (_, marked).
                  Returns-assert (ltb (add64 offset bytes) c.size) _ (ground arith) (
                    Returns-bind
                      (rawwrite-Returns (Healthy-Frame marked.frame r.healthy) (c.base + offset)
                        bytes (omega (arith, marked.frame.data_size, r.data_size))
                        (omega (arith, marked.frame.data_size, r.data_size)) wbuf long)
                      λ err u (fine, wrote, put).
                        Returns-else (is_nonzero err) _ _ (ap is_nonzero fine) (
                          returns
                            (ground arith, written wbuf t u aligned room marked wrote put)))))))
