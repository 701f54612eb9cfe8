-- ===== src/Backend/Loads.antt =====
-- `capfs_backend_get_cap` of src/backends/files.c, lines 478 to 520, and the bit that it looks up.
use capfs.Base.{ℕ, ◌+◌, ◌/◌, ◌%◌, ◌<◌, ◌^◌, ◌≡◌, ◌≢◌, refl, ap, ◌∙◌, inl, inr}
use capfs.Base.{true, not, arith, ltb, leb, ◌==◌, Bool-cases, pos, neg}
use capfs.Base.{add64, length, eacces, bit_and}
use capfs.Bits.{zero-bit_and}
use capfs.Machine.{State}
use capfs.Machine.Post.{Leads, ends, Leads-bind, Leads-if, Leads-assert}
use capfs.Machine.Post.{Returns, returns, Returns-bind, Returns-else, Returns-then}
use capfs.Machine.Frame.{Frame, Frame-refl, fseek-Frame, fread-Frame}
use capfs.Machine.Healthy.{Healthy}
use capfs.Capability.{perm_read, permits, capref_to_capability}
use capfs.Metadata.{
  data_offset, files_size, ptr_to_offset, metadata_rawread, metadata_is_capability,
}
use capfs.Metadata.Words.{rawread-Returns}
use capfs.Backend.{capfs_backend_get_cap}

rawread_keeps :
    (ptr md : ℕ) (s : State) → Leads (λ (_, md') _. md' ≡ md) (metadata_rawread ptr md s)
unfolding metadata_rawread
rawread_keeps ptr md s = Leads-assert (ltb (ptr_to_offset ptr) data_offset) _ λ _.
    Leads-if (not s.file.opened) _ _ (λ _. ends refl)
      λ _. Leads-bind (fseek-Frame 0 0 (ptr_to_offset ptr) s) λ failed t _.
        Leads-if failed _ _ (λ _. ends refl)
          λ _.
            Leads-bind (fread-Frame 0 0 8 t)
              λ got u _. Leads-if (not (length got / 8 == 1)) _ _ (λ _. ends refl) (λ _. ends refl)

is_capability-zero :
    (offset : ℕ) (s : State) → Leads (λ md _. md ≡ 0) (metadata_is_capability offset s)
unfolding metadata_is_capability
is_capability-zero offset s =
    Leads-if (not (bit_and offset 0x3 == 0)) _ _ (λ _. ends refl)
      λ _.
        Leads-bind (rawread_keeps (offset / 8) 0 s)
          λ got t kept. ends (ap (λ md. bit_and md (2 ^ (offset / 8 % 32))) kept ∙ zero-bit_and _)

-- In every state and for all arguments, `capfs_backend_get_cap` does not return 0 and does not set
-- the result.
pub get_cap-Leads :
    (cap offset old : ℕ) (s : State)
    → Leads
        (λ (status, ret) _. (status ≢ pos 0) × (ret ≡ old))
        (capfs_backend_get_cap cap offset old s)
unfolding capfs_backend_get_cap
get_cap-Leads cap offset old s =
    let c = capref_to_capability cap in
    Leads-if (not (permits c perm_read)) _ _ (λ _. ends (grind arith, refl))
      λ _.
        Leads-if (leb c.size (add64 offset 8)) _ _ (λ _. ends (grind arith, refl))
          λ _. Leads-bind (is_capability-zero offset s) λ valid t e.
            Leads-if (valid == 0) _ _ (λ _. ends (grind arith, refl)) (λ ne. ground arith)

is_capability-Returns :
    (offset : ℕ) {s : State}
    → Healthy s
    → offset < files_size
    → Returns (λ md t. (md ≡ 0) × Frame 0 0 s t) (metadata_is_capability offset s)
unfolding metadata_is_capability
is_capability-Returns offset {s} h below = elim (Bool-cases (not (bit_and offset 0x3 == 0))) [
  | inl e ↦ Returns-then _ _ _ e (returns (refl, Frame-refl _ _ _))
  | inr e ↦ Returns-else _ _ _ e (
      Returns-bind (rawread-Returns (offset / 8) 0 h (omega arith)) λ got t (kept, same).
        returns (ap (λ md. bit_and md (2 ^ (offset / 8 % 32))) kept ∙ zero-bit_and _, same))
]

-- On a file on which every call works, `capfs_backend_get_cap` through a readable capability, at
-- an offset whose eight bytes lie inside it and that lies below the size of the data region,
-- returns -EACCES, leaves the result as it was and changes no byte.
pub get_cap-Returns :
    (cap offset old : ℕ) {s : State}
    → Healthy s
    → permits (capref_to_capability cap) perm_read ≡ true
    → offset + 8 < (capref_to_capability cap).size
    → offset < files_size
    → Returns
        (λ (status, ret) t. (status ≡ neg eacces) × (ret ≡ old) × Frame 0 0 s t)
        (capfs_backend_get_cap cap offset old s)
unfolding capfs_backend_get_cap
get_cap-Returns cap offset old h readable inside below =
    let c = capref_to_capability cap in
    Returns-else (not (permits c perm_read)) _ _ (ground arith) (
      Returns-else (leb c.size (add64 offset 8)) _ _ (ground arith) (
        Returns-bind (is_capability-Returns offset h below) λ valid t (e, same).
          Returns-then (valid == 0) _ _ (ground arith) (returns (refl, refl, same))))
