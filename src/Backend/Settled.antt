-- ===== src/Backend/Settled.antt =====
-- `capfs_backend_write` and `capfs_backend_put_cap` of src/backends/files.c at any address, when every
-- call on the file works.
use capfs.Base.{
  ℕ, ◌+◌, ◌/◌, ◌≤◌, ◌<◌, ◌≡◌, refl, ap, ◌∙◌, inr, ◌&&◌, Bool, true, false, not, List, arith,
}
use capfs.Base.{leb, ltb, add64, is_negative, is_nonzero, length, take, pos}
use capfs.Machine.{State, patch, le_bytes}
use capfs.Machine.Post.{Returns, Returns-mono}
use capfs.Machine.Bytes.{patch_shift}
use capfs.Machine.Settles.{
  Settles, settles, Settles-bind, Settles-after, Settles-mono, Settles-cast, Settles-else,
  Settles-passed,
}
use capfs.Capability.{perm_write, permits, capability_compres, capref_to_capability}
use capfs.Capability.RoundTrip.{capref_to_capability_bounds}
use capfs.Metadata.{data_offset, files_size, metadata_valid_bits_generic}
use capfs.Metadata.Framed.{MetaFrame}
use capfs.Metadata.Decided.{can_mark, valid_bits-Settles}
use capfs.Capstore.{capstore_rawwrite}
use capfs.Capstore.Access.{rawwrite-Returns}
use capfs.Backend.{
  capfs_backend_write, capfs_backend_put_cap, metadata_clear_valid_bits, metadata_set_valid_bits,
}
use capfs.Backend.Confined.{data_byte}
use capfs.Backend.ReadWrite.{Ready, Ready-Frame}

-- The file is still ready, and its data is that of `f`.
pub record Holds (f : ℕ → ℕ) (t : State) : Type 0 where
  pub ready : Ready t
  pub holds : (i : ℕ) → data_byte t i ≡ f i

-- Touching the bits keeps what is held.
Holds-MetaFrame : {f : ℕ → ℕ} {s t : State} → MetaFrame s t → Holds f s → Holds f t
unfolding data_byte
Holds-MetaFrame same h = record {
  ready = Ready-Frame (omega arith) same h.ready;
  holds = λ i. same.outside (i + data_offset) (inr (omega arith)) ∙ h.holds i;
}

store-Returns :
    (f : ℕ → ℕ) (at bytes : ℕ) (wbuf : List ℕ) {s : State}
    → Holds f s
    → at + bytes < files_size
    → bytes ≤ length wbuf
    → Returns
        (λ status t. (status ≡ pos 0) × Holds (patch f at (take bytes wbuf)) t)
        (capstore_rawwrite at wbuf bytes s)
unfolding data_byte
store-Returns f at bytes wbuf h inside long =
    Returns-mono
      (rawwrite-Returns h.ready.healthy at bytes (omega (arith, h.ready.data_size))
        (omega (arith, h.ready.data_size)) wbuf long)
      λ status t (fine, wrote, put). (
        fine,
        record {
          ready = Ready-Frame (omega arith) wrote h.ready;
          holds = λ i.
              ap (λ g. g (i + data_offset)) put
              ∙ patch_shift _ f at data_offset (take bytes wbuf) i (h.holds i);
        },
      )

and_true : (b : Bool) → (b && true) ≡ b
and_true true = refl
and_true false = refl

-- Marking the bits of a range inside the data region.
pub mark-Settles :
    (set : Bool) (f : ℕ → ℕ) (from to : ℕ) {s : State}
    → Holds f s
    → from ≤ to
    → to < files_size
    → Settles
        (λ status t. (status ≡ pos 0) × Holds f t)
        (can_mark (from / 8) ((to + 7) / 8))
        (metadata_valid_bits_generic from to set s)
mark-Settles set f from to h le inside =
    Settles-mono (valid_bits-Settles set from to h.ready.healthy le (omega arith) (omega arith))
      λ status t (fine, same). (fine, Holds-MetaFrame same h)

pub write-Settles :
    (cap offset bytes : ℕ) (wbuf : List ℕ) (f : ℕ → ℕ) {s : State}
    → Holds f s
    → permits (capref_to_capability cap) perm_write ≡ true
    → offset + bytes < (capref_to_capability cap).size
    → (capref_to_capability cap).base + offset + bytes < files_size
    → bytes ≤ length wbuf
    → let at = (capref_to_capability cap).base + offset in
      Settles
        (λ status t. (status ≡ pos bytes) × Holds (patch f at (take bytes wbuf)) t)
        (can_mark (at / 8) ((at + bytes + 7) / 8))
        (capfs_backend_write cap offset wbuf bytes s)
unfolding capfs_backend_write metadata_clear_valid_bits
write-Settles cap offset bytes wbuf f h writable inside stored long =
    let c = capref_to_capability cap in
    let (base_fits, size_fits) = capref_to_capability_bounds cap in
    let at : add64 c.base offset ≡ c.base + offset = omega arith in
    let to : add64 (c.base + offset) bytes ≡ c.base + offset + bytes = omega arith in
    Settles-else (not (permits c perm_write)) _ _ (ground arith) (
      Settles-else (is_negative offset) _ _ (ground arith) (
        Settles-else (leb c.size (add64 offset bytes)) _ _ (ground arith) (
          rw (at, to)
            (Settles-cast (and_true _) (
              Settles-bind
                (mark-Settles false f (c.base + offset) (c.base + offset + bytes) h (omega arith)
                  stored)
                λ cleared t (_, kept).
                  Settles-passed (ltb (add64 offset bytes) c.size) _ (ground arith) (
                    Settles-after (store-Returns f (c.base + offset) bytes wbuf kept stored long)
                      λ err u (fine, put).
                        Settles-else (is_nonzero err) _ _ (ap is_nonzero fine)
                          (settles (ground arith, put))))))))

-- The eight bytes of the stored form, and the address that the sum comes to.
pub put_cap-Settles :
    (cap offset newcap at : ℕ) (f : ℕ → ℕ) {s : State}
    → Holds f s
    → permits (capref_to_capability cap) perm_write ≡ true
    → add64 offset 8 < (capref_to_capability cap).size
    → add64 (capref_to_capability cap).base offset ≡ at
    → at + 8 < files_size
    → let form = le_bytes 8 (capability_compres (capref_to_capability newcap)) in
      Settles
        (λ status t. (status ≡ pos 0) × Holds (patch f at form) t)
        (can_mark (at / 8) ((at + 7) / 8))
        (capfs_backend_put_cap cap offset newcap s)
unfolding capfs_backend_put_cap metadata_set_valid_bits
put_cap-Settles cap offset newcap at f h writable inside sum stored =
    let c = capref_to_capability cap in
    let form = le_bytes 8 (capability_compres (capref_to_capability newcap)) in
    Settles-else (not (permits c perm_write)) _ _ (ground arith) (
      Settles-else (leb c.size (add64 offset 8)) _ _ (ground arith) (
        rw sum (
          Settles-after (store-Returns f at 8 form h stored (omega arith)) λ err t (fine, put).
            Settles-else (is_nonzero err) _ _ (ap is_nonzero fine)
              (mark-Settles true (patch f at form) at at put (omega arith) (omega arith)))))
