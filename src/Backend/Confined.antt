-- ===== src/Backend/Confined.antt =====
-- Which data the operations of src/backends/files.c may change, whatever the outcome of the I/O
-- calls.
use capfs.Base.{ℕ, zero, suc, ◌+◌, ◌/◌, ◌≤◌, ◌<◌, ◌^◌, ◌≡◌, refl, ◌∙◌, ◌⊎◌, inr}
use capfs.Base.{true, false, not, List, arith, ltb, leb}
use capfs.Base.{add64, is_negative, is_nonzero}
use capfs.Machine.{State}
use capfs.Machine.Post.{Leads, cut_off, ends, Leads-bind, Leads-if, Leads-assert, Leads-mono}
use capfs.Capability.{perm_read, perm_write, permits, capref_to_capability}
use capfs.Capability.RoundTrip.{capref_to_capability_bounds}
use capfs.Metadata.{data_offset}
use capfs.Metadata.Framed.{valid_bits-Frame}
use capfs.Capstore.Access.{rawread-Frame, rawwrite-Frame}
use capfs.Backend.{metadata_clear_valid_bits, metadata_set_valid_bits, capfs_backend_read}
use capfs.Backend.{capfs_backend_write, capfs_backend_put_cap, capfs_backend_zero, zero_loop}

-- The byte at `i` of the data region.
unfoldable pub data_byte : State → ℕ → ℕ
data_byte s i = s.file.bytes (i + data_offset)

-- From `s` to `t` only the data from `lo` up to `hi` changed.
abbrev pub Confined : ℕ → ℕ → State → State → Type 0
Confined lo hi s t = (i : ℕ) → (i < lo) ⊎ (hi ≤ i) → data_byte t i ≡ data_byte s i

-- A write through a capability, of fewer than 2^63 bytes, changes no byte of the data region
-- outside the range of that capability, if it returns, however the I/O calls turn out and whatever
-- uninitialised variables hold.
pub write-Confined :
    (cap offset : ℕ) (wbuf : List ℕ) (bytes : ℕ) (s : State)
    → bytes < 2 ^ 63
    → let c = capref_to_capability cap in
      Leads
        (λ _ t. Confined c.base (c.base + c.size) s t)
        (capfs_backend_write cap offset wbuf bytes s)
unfolding capfs_backend_write data_byte metadata_clear_valid_bits
write-Confined cap offset wbuf bytes s small =
    let c = capref_to_capability cap in
    let (base_fits, size_fits) = capref_to_capability_bounds cap in
    Leads-if (not (permits c perm_write)) _ _ (λ _. ends λ i h. refl)
      λ _.
        Leads-if (is_negative offset) _ _ (λ _. ends λ i h. refl)
          λ not_negative.
            Leads-if (leb c.size (add64 offset bytes)) _ _ (λ _. ends λ i h. refl)
              λ below. Leads-bind (valid_bits-Frame _ _ false s) λ cleared t same.
                Leads-assert (ltb (add64 offset bytes) c.size) _ λ inside.
                  Leads-bind (rawwrite-Frame (add64 c.base offset) wbuf bytes t) λ err u wrote.
                    let changed : Confined c.base (c.base + c.size) s u = λ i h.
                      wrote.outside (i + data_offset) (ground arith)
                      ∙ same.outside (i + data_offset) (inr (omega arith)) in
                    Leads-if (is_nonzero err) _ _ (λ _. ends changed) (λ _. ends changed)

-- In every state and for all arguments, `capfs_backend_read` changes no byte of the data region,
-- if it returns.
pub read-Confined :
    (cap offset : ℕ) (rbuf : List ℕ) (bytes : ℕ) (s : State)
    → Leads (λ _ t. Confined 0 0 s t) (capfs_backend_read cap offset rbuf bytes s)
unfolding capfs_backend_read data_byte
read-Confined cap offset rbuf bytes s =
    let c = capref_to_capability cap in
    Leads-if (not (permits c perm_read)) _ _ (λ _. ends λ i h. refl)
      λ _.
        Leads-if (is_negative offset) _ _ (λ _. ends λ i h. refl)
          λ _.
            Leads-if (leb c.size (add64 offset bytes)) _ _ (λ _. ends λ i h. refl)
              λ _. Leads-assert (ltb (add64 offset bytes) c.size) _ λ _.
                Leads-bind (rawread-Frame (add64 c.base offset) rbuf bytes s) λ got t same.
                  let kept : Confined 0 0 s t = λ i h. same.outside _ (inr (omega arith)) in
                  Leads-if (is_nonzero got.0) _ _ (λ _. ends kept) (λ _. ends kept)

-- Storing a capability through another one, at an offset below 2^63, changes no byte of the data
-- region outside the range of the latter, if it returns, however the I/O calls turn out.
pub put_cap-Confined :
    (cap offset newcap : ℕ) (s : State)
    → offset < 2 ^ 63
    → let c = capref_to_capability cap in
      Leads
        (λ _ t. Confined c.base (c.base + c.size) s t)
        (capfs_backend_put_cap cap offset newcap s)
unfolding capfs_backend_put_cap data_byte metadata_set_valid_bits
put_cap-Confined cap offset newcap s small =
    let c = capref_to_capability cap in
    let (base_fits, size_fits) = capref_to_capability_bounds cap in
    Leads-if (not (permits c perm_write)) _ _ (λ _. ends λ i h. refl)
      λ _.
        Leads-if (leb c.size (add64 offset 8)) _ _ (λ _. ends λ i h. refl)
          λ below. Leads-bind (rawwrite-Frame (add64 c.base offset) _ 8 s) λ err t wrote.
            let stored : Confined c.base (c.base + c.size) s t =
              λ i h. wrote.outside (i + data_offset) (ground arith) in
            Leads-if (is_nonzero err) _ _ (λ _. ends stored)
              λ _.
                Leads-mono (valid_bits-Frame _ _ true t) λ status u same i h.
                  same.outside (i + data_offset) (inr (omega arith)) ∙ stored i h

zero_loop-Confined :
    (rounds cap offset : ℕ) (s : State)
    → let c = capref_to_capability cap in
      Leads (λ _ t. Confined c.base (c.base + c.size) s t) (zero_loop rounds cap c.size offset s)
unfolding zero_loop
zero_loop-Confined zero cap offset s = cut_off
zero_loop-Confined (suc rounds) cap offset s =
    let c = capref_to_capability cap in
    let (base_fits, size_fits) = capref_to_capability_bounds cap in
    Leads-if (ltb offset c.size) _ _
      (λ more. Leads-bind (write-Confined cap offset _ _ s (ground arith)) λ status t wrote.
        Leads-mono (zero_loop-Confined rounds cap (add64 offset 256) t)
          λ _ u rest i h. rest i h ∙ wrote i h)
      (λ _. ends λ i h. refl)

-- In every state, `capfs_backend_zero` changes no data outside the range of the capability, if it
-- returns.
pub zero-Confined :
    (cap : ℕ) (s : State)
    → let c = capref_to_capability cap in
      Leads (λ _ t. Confined c.base (c.base + c.size) s t) (capfs_backend_zero cap s)
unfolding capfs_backend_zero
zero-Confined cap s =
    let c = capref_to_capability cap in
    Leads-if (not (permits c perm_write)) _ _ (λ _. ends λ i h. refl)
      λ _. Leads-bind (zero_loop-Confined (c.size / 256 + 2) cap 0 s) λ _ t wrote. ends wrote
