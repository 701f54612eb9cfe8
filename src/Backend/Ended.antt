-- ===== src/Backend/Ended.antt =====
-- Every operation of src/backends/files.c, lines 350 to 698, comes to an end.
use capfs.Base.{
  ℕ, zero, suc, [], ◌∷◌, ◌+◌, ◌*◌, ◌/◌, ◌≤◌, ◌<◌, ◌^◌, not, List, arith, ltb, leb, ◌==◌, length,
  add64, is_negative, is_nonzero, take,
}
use capfs.Machine.{State}
use capfs.Machine.Ends.{
  Ends, normally, Ends-bind, Ends-if, Ends-assert, fseek-Ends, fread-Ends, fwrite-Ends,
}
use capfs.Capability.{perm_read, perm_write, permits, capref_to_capability}
use capfs.Capability.RoundTrip.{capref_to_capability_bounds}
use capfs.Metadata.Ended.{is_capability-Ends, valid_bits-Ends}
use capfs.Capstore.{capstore_addr2offset, capstore_rawread, capstore_rawwrite}
use capfs.Backend.{capfs_backend_read, capfs_backend_write, capfs_backend_zero, zero_loop}
use capfs.Backend.{
  capfs_backend_get_cap, capfs_backend_put_cap, metadata_clear_valid_bits, metadata_set_valid_bits,
}
use capfs.Backend.Memory.{Request, read, write, get_cap, put_cap, perform, perform_all}

rawread-Ends :
    (offset : ℕ) (rbuf : List ℕ) (bytes : ℕ) (s : State)
    → Ends (capstore_rawread offset rbuf bytes s)
unfolding capstore_rawread
rawread-Ends offset rbuf bytes s =
    Ends-if (not s.file.opened) _ _ (λ _. normally)
      λ _.
        Ends-if (leb s.data_size (add64 offset bytes)) _ _ (λ _. normally)
          λ _. Ends-bind (fseek-Ends (capstore_addr2offset offset) s) λ failed t.
            Ends-if failed _ _ (λ _. normally)
              λ _.
                Ends-bind (fread-Ends bytes t)
                  λ got u. Ends-if (length got == 1) _ _ (λ _. normally) (λ _. normally)

rawwrite-Ends :
    (offset : ℕ) (wbuf : List ℕ) (bytes : ℕ) (s : State)
    → Ends (capstore_rawwrite offset wbuf bytes s)
unfolding capstore_rawwrite
rawwrite-Ends offset wbuf bytes s =
    Ends-if (not s.file.opened) _ _ (λ _. normally)
      λ _.
        Ends-if (leb s.data_size (add64 offset bytes)) _ _ (λ _. normally)
          λ _. Ends-bind (fseek-Ends (capstore_addr2offset offset) s) λ failed t.
            Ends-if failed _ _ (λ _. normally)
              λ _.
                Ends-bind (fwrite-Ends (take bytes wbuf) t)
                  λ n u. Ends-if (n == 1) _ _ (λ _. normally) (λ _. normally)

pub read-Ends :
    (cap offset : ℕ) (rbuf : List ℕ) (bytes : ℕ) (s : State)
    → Ends (capfs_backend_read cap offset rbuf bytes s)
unfolding capfs_backend_read
read-Ends cap offset rbuf bytes s =
    let c = capref_to_capability cap in
    Ends-if (not (permits c perm_read)) _ _ (λ _. normally)
      λ _.
        Ends-if (is_negative offset) _ _ (λ _. normally)
          λ _.
            Ends-if (leb c.size (add64 offset bytes)) _ _ (λ _. normally)
              λ _. Ends-assert (ltb (add64 offset bytes) c.size) _ λ _.
                Ends-bind (rawread-Ends (add64 c.base offset) rbuf bytes s)
                  λ got t. Ends-if (is_nonzero got.0) _ _ (λ _. normally) (λ _. normally)

pub write-Ends :
    (cap offset : ℕ) (wbuf : List ℕ) (bytes : ℕ) (s : State)
    → Ends (capfs_backend_write cap offset wbuf bytes s)
unfolding capfs_backend_write metadata_clear_valid_bits
write-Ends cap offset wbuf bytes s =
    let c = capref_to_capability cap in
    Ends-if (not (permits c perm_write)) _ _ (λ _. normally)
      λ _.
        Ends-if (is_negative offset) _ _ (λ _. normally)
          λ _.
            Ends-if (leb c.size (add64 offset bytes)) _ _ (λ _. normally)
              λ _. Ends-bind (valid_bits-Ends _ _ _ s) λ _ t.
                Ends-assert (ltb (add64 offset bytes) c.size) _ λ _.
                  Ends-bind (rawwrite-Ends (add64 c.base offset) wbuf bytes t)
                    λ err u. Ends-if (is_nonzero err) _ _ (λ _. normally) (λ _. normally)

get_cap-Ends : (cap offset old : ℕ) (s : State) → Ends (capfs_backend_get_cap cap offset old s)
unfolding capfs_backend_get_cap
get_cap-Ends cap offset old s =
    let c = capref_to_capability cap in
    Ends-if (not (permits c perm_read)) _ _ (λ _. normally)
      λ _.
        Ends-if (leb c.size (add64 offset 8)) _ _ (λ _. normally)
          λ _. Ends-bind (is_capability-Ends offset s) λ valid t.
            Ends-if (valid == 0) _ _ (λ _. normally)
              λ _.
                Ends-bind (rawread-Ends (add64 c.base offset) _ 8 t)
                  λ got u. Ends-if (is_nonzero got.0) _ _ (λ _. normally) (λ _. normally)

put_cap-Ends :
    (cap offset newcap : ℕ) (s : State) → Ends (capfs_backend_put_cap cap offset newcap s)
unfolding capfs_backend_put_cap metadata_set_valid_bits
put_cap-Ends cap offset newcap s =
    let c = capref_to_capability cap in
    Ends-if (not (permits c perm_write)) _ _ (λ _. normally)
      λ _.
        Ends-if (leb c.size (add64 offset 8)) _ _ (λ _. normally)
          λ _.
            Ends-bind (rawwrite-Ends (add64 c.base offset) _ 8 s)
              λ err t. Ends-if (is_nonzero err) _ _ (λ _. normally) λ _. valid_bits-Ends _ _ _ t

-- A round moves on by 256 bytes; below 2^63 the offset does not wrap.
zero_loop-Ends :
    (rounds cap size offset : ℕ) (s : State)
    → size ≤ 2 ^ 63
    → size + 256 ≤ offset + 256 * rounds
    → 0 < rounds
    → Ends (zero_loop rounds cap size offset s)
unfolding zero_loop
zero_loop-Ends zero cap size offset s fits enough some = absurd (omega arith)
zero_loop-Ends (suc rounds) cap size offset s fits enough some =
    Ends-if (ltb offset size) _ _
      (λ more. Ends-bind (write-Ends cap offset _ _ s) λ _ t.
        zero_loop-Ends rounds cap size (add64 offset 256) t fits (ground arith) (ground arith))
      (λ _. normally)

pub zero-Ends : (cap : ℕ) (s : State) → Ends (capfs_backend_zero cap s)
unfolding capfs_backend_zero
zero-Ends cap s =
    let c = capref_to_capability cap in
    let (base_fits, size_fits) = capref_to_capability_bounds cap in
    Ends-if (not (permits c perm_write)) _ _ (λ _. normally)
      λ _.
        Ends-bind
          (zero_loop-Ends (c.size / 256 + 2) cap c.size 0 s (omega arith) (omega arith)
            (omega arith))
          λ _ t. normally

pub perform-Ends : (q : Request) (s : State) → Ends (perform q s)
unfolding perform
perform-Ends (read cap offset rbuf bytes) s = read-Ends cap offset rbuf bytes s
perform-Ends (write cap offset wbuf bytes) s =
    Ends-bind (write-Ends cap offset wbuf bytes s) λ _ t. normally
perform-Ends (Request.zero cap) s = Ends-bind (zero-Ends cap s) λ _ t. normally
perform-Ends (get_cap cap offset old) s = Ends-bind (get_cap-Ends cap offset old s) λ _ t. normally
perform-Ends (put_cap cap offset newcap) s =
    Ends-bind (put_cap-Ends cap offset newcap s) λ _ t. normally

-- In every state and however the I/O calls turn out, any sequence of reads, writes, zeroings,
-- loads and stores of capabilities comes to an end: no loop runs out of fuel.
pub perform_all-Ends : (qs : List Request) (s : State) → Ends (perform_all qs s)
unfolding perform_all
perform_all-Ends [] s = normally
perform_all-Ends (q ∷ qs) s =
    Ends-bind (perform-Ends q s) λ r t. Ends-bind (perform_all-Ends qs t) λ rs u. normally
