-- ===== src/Backend/Escaped.antt =====
-- `capfs_backend_put_cap` of src/backends/files.c, lines 522 to 565, at an offset that is negative as an
-- `off_t`.
use capfs.Base.{ℕ, ◌+◌, ◌-◌, ◌/◌, ◌%◌, ◌≤◌, ◌<◌, ◌^◌, ◌≡◌, true, refl, arith, pos, ltb, leb, ◌==◌}
use capfs.Machine.{State, patch, le_bytes}
use capfs.Machine.Post.{Returns}
use capfs.Machine.Settles.{Settles-Returns}
use capfs.Capability.{perm_write, permits, capability_compres, capref_to_capability}
use capfs.Capability.RoundTrip.{capref_to_capability_bounds}
use capfs.Metadata.{files_size, num_pointers}
use capfs.Metadata.Decided.{can_mark, head_stop}
use capfs.Backend.{capfs_backend_put_cap}
use capfs.Backend.Settled.{Holds, put_cap-Settles}

-- The bit of the last slot in front of a block of 256 bytes can be marked.
last_slot :
    (base : ℕ)
    → base % 256 ≡ 0
    → 8 ≤ base
    → base < files_size
    → can_mark ((base - 8) / 8) ((base - 8 + 7) / 8) ≡ true
last_slot base aligned some below =
    let p = base / 8 - 1 in
    let first : (base - 8) / 8 ≡ p = omega arith in
    let last : (base - 8 + 7) / 8 ≡ p = omega arith in
    let stop : head_stop p p ≡ base / 8 = omega arith in
    let low : ltb (base / 8) num_pointers ≡ true = ground arith in
    let even : (base / 8 % 32 == 0) ≡ true = ground arith in
    let past : ltb p (base / 8) ≡ true = ground arith in
    let done : leb p (base / 8) ≡ true = ground arith in
    rw (first, last, stop, low, even, past, done) refl

-- On a ready file, storing a capability at the offset -8, as a 64-bit pattern, through a writable
-- capability that begins at a multiple of 256, at 8 or later and inside the data region, and is
-- not empty, returns 0 and puts the eight bytes in front of that capability.
pub put_cap_escapes :
    (cap newcap : ℕ) (memory : ℕ → ℕ) {s : State}
    → Holds memory s
    → permits (capref_to_capability cap) perm_write ≡ true
    → (capref_to_capability cap).base % 256 ≡ 0
    → 8 ≤ (capref_to_capability cap).base
    → (capref_to_capability cap).base < files_size
    → 0 < (capref_to_capability cap).size
    → let form = le_bytes 8 (capability_compres (capref_to_capability newcap)) in
      Returns
        (λ status t.
          (status ≡ pos 0) × Holds (patch memory ((capref_to_capability cap).base - 8) form) t)
        (capfs_backend_put_cap cap (2 ^ 64 - 8) newcap s)
put_cap_escapes cap newcap memory h writable aligned some below positive =
    let c = capref_to_capability cap in
    let (base_fits, size_fits) = capref_to_capability_bounds cap in
    Settles-Returns
      (put_cap-Settles cap (2 ^ 64 - 8) newcap (c.base - 8) memory h writable (omega arith)
        (omega arith) (omega arith))
      (last_slot c.base aligned some below)
