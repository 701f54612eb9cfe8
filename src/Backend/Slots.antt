-- ===== src/Backend/Slots.antt =====
-- `capfs_backend_put_cap` of src/backends/files.c at an address that is a multiple of 8.
use capfs.Base.{ℕ, ◌+◌, ◌*◌, ◌/◌, ◌%◌, ◌<◌, ◌≡◌, ap, ◌∙◌, refl, true, false, Bool, ◌||◌, arith, pos}
use capfs.Base.{◌==◌, ltb, leb, inl, inr, Bool-cases}
use capfs.Machine.{State, patch, le_bytes}
use capfs.Machine.Settles.{Settles, Settles-cast}
use capfs.Capability.{perm_write, permits, capability_compres, capref_to_capability}
use capfs.Capability.RoundTrip.{capref_to_capability_bounds}
use capfs.Metadata.{files_size, num_pointers}
use capfs.Metadata.Decided.{can_mark, head_stop}
use capfs.Backend.{capfs_backend_put_cap}
use capfs.Backend.Settled.{Holds, put_cap-Settles}

-- The slot is the first or the last one of its word of validity bits.
abbrev pub at_edge : ℕ → Bool
at_edge slot = (slot % 32 == 0) || (slot % 32 == 31)

first_of_word : (p : ℕ) → p < num_pointers → p % 32 ≡ 0 → can_mark p p ≡ true
first_of_word p below even =
    let stop : head_stop p p ≡ p = omega arith in
    let low : ltb p num_pointers ≡ true = ground arith in
    let even' : (p % 32 == 0) ≡ true = ground arith in
    let whole : p / 32 * 32 ≡ p = omega arith in
    let past : ltb p p ≡ false = ground arith in
    let done : leb p p ≡ true = ground arith in rw (stop, low, even', past, whole, done) refl

inside_word : (p : ℕ) → p + 1 < num_pointers → (p % 32 == 0) ≡ false → can_mark p p ≡ (p % 32 == 31)
inside_word p below odd =
    let stop : head_stop p p ≡ p + 1 = ground arith in
    let low : ltb (p + 1) num_pointers ≡ true = ground arith in
    let past : ltb p (p + 1) ≡ true = ground arith in
    let done : leb p (p + 1) ≡ true = ground arith in rw (stop, low, past, done) (ground arith)

can_mark-at_edge : (p : ℕ) → p + 1 < num_pointers → can_mark p p ≡ at_edge p
can_mark-at_edge p below = elim (Bool-cases (p % 32 == 0)) [
  | inl e ↦ first_of_word p (omega arith) (ground arith) ∙ ground arith
  | inr e ↦ inside_word p below e ∙ ground arith
]

-- On a ready file (of the expected size, on which every call works) whose data is the given
-- memory, storing a capability through a writable one, at an address that is a multiple of 8 and
-- whose eight bytes end inside that capability and inside the data region, returns 0 and puts the
-- eight bytes of its stored form there if the slot is the first or the last of the 32 of its word
-- of validity bits; else the program aborts.
pub put_cap_slots :
    (cap offset newcap : ℕ) (memory : ℕ → ℕ) {s : State}
    → Holds memory s
    → permits (capref_to_capability cap) perm_write ≡ true
    → offset + 8 < (capref_to_capability cap).size
    → (capref_to_capability cap).base + offset + 8 < files_size
    → ((capref_to_capability cap).base + offset) % 8 ≡ 0
    → let at = (capref_to_capability cap).base + offset in
      let form = le_bytes 8 (capability_compres (capref_to_capability newcap)) in
      Settles
        (λ status t. (status ≡ pos 0) × Holds (patch memory at form) t)
        (at_edge (at / 8))
        (capfs_backend_put_cap cap offset newcap s)
put_cap_slots cap offset newcap memory h writable inside stored aligned =
    let c = capref_to_capability cap in
    let (base_fits, size_fits) = capref_to_capability_bounds cap in
    let at = c.base + offset in
    let last : (at + 7) / 8 ≡ at / 8 = omega arith in
    Settles-cast (ap (can_mark (at / 8)) last ∙ can_mark-at_edge (at / 8) (omega arith))
      (put_cap-Settles cap offset newcap at memory h writable (omega arith) (omega arith) stored)
