-- ===== src/Backend/Sized/Calls.antt =====
-- What each operation of src/backends/files.c leaves of the file's size and of the statics, whatever
-- the outcome of the I/O calls.
use capfs.Base.{
  ℕ, zero, suc, Bool, ◌+◌, ◌/◌, ◌≤◌, ◌<◌, ◌^◌, ◌≡◌, ◌∙◌, not, List, false, arith, ltb, leb, ◌==◌,
  add64, is_negative, is_nonzero, take, length-take,
}
use capfs.Machine.{State, fseek}
use capfs.Machine.Post.{Leads, ends, cut_off, Leads-bind, Leads-if, Leads-assert, Leads-mono}
use capfs.Machine.Frame.{Frame, fwrite-Frame}
use capfs.Capability.{perm_read, perm_write, permits, capref_to_capability}
use capfs.Capability.RoundTrip.{capref_to_capability_bounds}
use capfs.Metadata.{files_size, total_size, metadata_valid_bits_generic}
use capfs.Metadata.Framed.{valid_bits-Frame, is_capability-Frame}
use capfs.Capstore.{capstore_addr2offset, capstore_rawread, capstore_rawwrite}
use capfs.Capstore.Access.{rawread-Frame}
use capfs.Backend.{capfs_backend_read, capfs_backend_write, capfs_backend_zero, zero_loop}
use capfs.Backend.{
  capfs_backend_get_cap, capfs_backend_put_cap, metadata_clear_valid_bits, metadata_set_valid_bits,
}
use capfs.Backend.Memory.{zero}

-- The file has the expected size, and the statics are what `capfs_backend_init` makes them.
pub record Sized (opened : Bool) (root : ℕ) (t : State) : Type 0 where
  pub size : t.file.size ≡ total_size
  pub data_size : t.data_size ≡ files_size
  pub root_same : t.root_capability ≡ root
  pub opened_same : t.file.opened ≡ opened

-- A seek that succeeds is to a position that is not negative as a `long`.
sought :
    (p : ℕ) (s : State)
    → Leads
        (λ failed t. Frame 0 0 s t × (failed ≡ false → (t.file.position ≡ p) × (p < 2 ^ 63)))
        (fseek p s)
unfolding fseek
sought p s = grind (arith, ends)

module _ {opened : Bool} {root : ℕ} where
  Sized-Frame :
      {lo hi : ℕ} {s t : State}
      → hi ≤ total_size
      → Frame lo hi s t
      → Sized opened root s
      → Sized opened root t
  Sized-Frame fits same v = record {
    size = same.size (omega (arith, v.size)) ∙ v.size;
    data_size = same.data_size ∙ v.data_size;
    root_same = same.root ∙ v.root_same;
    opened_same = same.opened ∙ v.opened_same;
  }

  -- The guard of the store keeps the bytes inside the file.
  rawwrite-Sized :
      (offset : ℕ) (wbuf : List ℕ) (bytes : ℕ) {s : State}
      → Sized opened root s
      → offset < 2 ^ 64
      → bytes < 2 ^ 63
      → Leads (λ _ t. Sized opened root t) (capstore_rawwrite offset wbuf bytes s)
  unfolding capstore_rawwrite
  rawwrite-Sized offset wbuf bytes {s} v fits small =
      Leads-if (not s.file.opened) _ _ (λ _. ends v)
        λ _.
          Leads-if (leb s.data_size (add64 offset bytes)) _ _ (λ _. ends v)
            λ inside. Leads-bind (sought (capstore_addr2offset offset) s) λ failed t (same, there).
              let v' = Sized-Frame (omega arith) same v in
              Leads-if failed _ _ (λ _. ends v')
                λ worked.
                  Leads-bind
                    (fwrite-Frame 0 total_size (take bytes wbuf) t (omega arith) (
                      ground (
                        arith,
                        (there worked).0,
                        (there worked).1,
                        length-take bytes wbuf,
                        v.data_size,
                      )))
                    λ n u wrote.
                      let v'' = Sized-Frame (omega arith) wrote v' in
                      Leads-if (n == 1) _ _ (λ _. ends v'') (λ _. ends v'')

  marked_Sized :
      (from to : ℕ) (set : Bool) {s : State}
      → Sized opened root s
      → Leads (λ _ t. Sized opened root t) (metadata_valid_bits_generic from to set s)
  marked_Sized from to set {s} v =
      Leads-mono (valid_bits-Frame from to set s) λ _ t same. Sized-Frame (omega arith) same v

  raw_read_Sized :
      (offset : ℕ) (rbuf : List ℕ) (bytes : ℕ) {s : State}
      → Sized opened root s
      → Leads (λ _ t. Sized opened root t) (capstore_rawread offset rbuf bytes s)
  raw_read_Sized offset rbuf bytes {s} v =
      Leads-mono (rawread-Frame offset rbuf bytes s) λ _ t same. Sized-Frame (omega arith) same v

  pub read-Sized :
      (cap offset : ℕ) (rbuf : List ℕ) (bytes : ℕ) {s : State}
      → Sized opened root s
      → Leads (λ _ t. Sized opened root t) (capfs_backend_read cap offset rbuf bytes s)
  unfolding capfs_backend_read
  read-Sized cap offset rbuf bytes v =
      let c = capref_to_capability cap in
      Leads-if (not (permits c perm_read)) _ _ (λ _. ends v)
        λ _.
          Leads-if (is_negative offset) _ _ (λ _. ends v)
            λ _.
              Leads-if (leb c.size (add64 offset bytes)) _ _ (λ _. ends v)
                λ _. Leads-assert (ltb (add64 offset bytes) c.size) _ λ _.
                  Leads-bind (raw_read_Sized (add64 c.base offset) rbuf bytes v)
                    λ got t v'. Leads-if (is_nonzero got.0) _ _ (λ _. ends v') (λ _. ends v')

  pub write-Sized :
      (cap offset : ℕ) (wbuf : List ℕ) (bytes : ℕ) {s : State}
      → Sized opened root s
      → bytes < 2 ^ 63
      → Leads (λ _ t. Sized opened root t) (capfs_backend_write cap offset wbuf bytes s)
  unfolding capfs_backend_write metadata_clear_valid_bits
  write-Sized cap offset wbuf bytes v small =
      let c = capref_to_capability cap in
      let (base_fits, size_fits) = capref_to_capability_bounds cap in
      Leads-if (not (permits c perm_write)) _ _ (λ _. ends v)
        λ _.
          Leads-if (is_negative offset) _ _ (λ _. ends v)
            λ positive.
              Leads-if (leb c.size (add64 offset bytes)) _ _ (λ _. ends v)
                λ below. Leads-bind (marked_Sized _ _ _ v) λ _ t v'.
                  Leads-assert (ltb (add64 offset bytes) c.size) _ λ _.
                    Leads-bind
                      (rawwrite-Sized (add64 c.base offset) wbuf bytes v' (omega arith) small)
                      λ err u v''. Leads-if (is_nonzero err) _ _ (λ _. ends v'') (λ _. ends v'')

  zero_loop-Sized :
      (rounds cap offset : ℕ) {s : State}
      → Sized opened root s
      → Leads
          (λ _ t. Sized opened root t)
          (zero_loop rounds cap (capref_to_capability cap).size offset s)
  unfolding zero_loop
  zero_loop-Sized zero cap offset v = cut_off
  zero_loop-Sized (suc rounds) cap offset v =
      let c = capref_to_capability cap in
      let (base_fits, size_fits) = capref_to_capability_bounds cap in
      Leads-if (ltb offset c.size) _ _
        (λ more.
          Leads-bind (write-Sized cap offset _ _ v (ground arith))
            λ _ t v'. zero_loop-Sized rounds cap (add64 offset 256) v')
        (λ _. ends v)

  pub zero-Sized :
      (cap : ℕ) {s : State}
      → Sized opened root s
      → Leads (λ _ t. Sized opened root t) (capfs_backend_zero cap s)
  unfolding capfs_backend_zero
  zero-Sized cap v =
      let c = capref_to_capability cap in
      Leads-if (not (permits c perm_write)) _ _ (λ _. ends v)
        λ _. Leads-bind (zero_loop-Sized (c.size / 256 + 2) cap 0 v) λ _ t v'. ends v'

  pub get_cap-Sized :
      (cap offset old : ℕ) {s : State}
      → Sized opened root s
      → Leads (λ _ t. Sized opened root t) (capfs_backend_get_cap cap offset old s)
  unfolding capfs_backend_get_cap
  get_cap-Sized cap offset old {s} v =
      let c = capref_to_capability cap in
      Leads-if (not (permits c perm_read)) _ _ (λ _. ends v)
        λ _.
          Leads-if (leb c.size (add64 offset 8)) _ _ (λ _. ends v)
            λ _. Leads-bind (is_capability-Frame offset s) λ valid t same.
              let v' = Sized-Frame (omega arith) same v in
              Leads-if (valid == 0) _ _ (λ _. ends v')
                λ _.
                  Leads-bind (raw_read_Sized (add64 c.base offset) _ 8 v')
                    λ got u v''. Leads-if (is_nonzero got.0) _ _ (λ _. ends v'') (λ _. ends v'')

  pub put_cap-Sized :
      (cap offset newcap : ℕ) {s : State}
      → Sized opened root s
      → Leads (λ _ t. Sized opened root t) (capfs_backend_put_cap cap offset newcap s)
  unfolding capfs_backend_put_cap metadata_set_valid_bits
  put_cap-Sized cap offset newcap v =
      let c = capref_to_capability cap in
      Leads-if (not (permits c perm_write)) _ _ (λ _. ends v)
        λ _.
          Leads-if (leb c.size (add64 offset 8)) _ _ (λ _. ends v)
            λ _.
              Leads-bind (rawwrite-Sized (add64 c.base offset) _ 8 v (omega arith) (omega arith))
                λ err t v'. Leads-if (is_nonzero err) _ _ (λ _. ends v') λ _. marked_Sized _ _ _ v'
