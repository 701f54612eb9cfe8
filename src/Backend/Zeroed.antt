-- ===== src/Backend/Zeroed.antt =====
-- `capfs_backend_zero` of src/backends/files.c, lines 666 to 698, when every call on the file
-- works.
use capfs.Base.{ℕ, zero, suc, ◌+◌, ◌-◌, ◌*◌, ◌/◌, ◌%◌, ◌≤◌, ◌<◌, ◌≡◌, refl, subst, ◌∙◌, true, arith}
use capfs.Base.{List, ◌⊎◌, inl, inr, ltb, leb, Bool-cases, ltb→lt, not, pos, add64, is_negative}
use capfs.Base.{take, length, get_or, get_or-replicate}
use capfs.Machine.{State, patch}
use capfs.Machine.Bytes.{patch_outside}
use capfs.Machine.Post.{Returns, returns, Returns-bind, Returns-then, Returns-else, Returns-mono}
use capfs.Capability.{perm_write, permits, capref_to_capability}
use capfs.Capability.RoundTrip.{capref_to_capability_bounds}
use capfs.Metadata.{files_size}
use capfs.Backend.{capfs_backend_write, capfs_backend_zero, zero_loop, zero_block}
use capfs.Backend.Confined.{data_byte}
use capfs.Backend.ReadWrite.{Ready, write-Returns}

-- The data from `lo` up to `hi` is zero, and the rest is as before.
pub record Zeroed (lo hi : ℕ) (s t : State) : Type 0 where
  pub ready : Ready t
  pub zeros : (i : ℕ) → lo ≤ i → i < hi → data_byte t i ≡ 0
  pub kept : (i : ℕ) → (i < lo) ⊎ (hi ≤ i) → data_byte t i ≡ data_byte s i

module _ (xs : List ℕ) (f : ℕ → ℕ) (p i : ℕ) where
  patch-zeros : ((j : ℕ) → get_or xs j 0 ≡ 0) → p ≤ i → i < p + length xs → patch f p xs i ≡ 0
  unfolding patch
  patch-zeros zeros lo hi = ground (arith, zeros (i - p))

zero_block-zeros : (j : ℕ) → get_or (take 256 zero_block) j 0 ≡ 0
zero_block-zeros j = get_or-replicate 256 j (let z : ℕ = 0 in z)

Zeroed-join :
    {lo mid mid' hi : ℕ} {s t u : State}
    → mid' ≡ mid
    → lo ≤ mid
    → mid ≤ hi
    → Zeroed lo mid s t
    → Zeroed mid' hi t u
    → Zeroed lo hi s u
Zeroed-join {mid} same p q a b = record {
  ready = b.ready;
  zeros = λ i from to. elim (Bool-cases (ltb i mid)) [
    | inl e ↦ b.kept i (inl (ground arith)) ∙ a.zeros i from (ltb→lt _ _ e)
    | inr e ↦ b.zeros i (ground arith) to
  ];
  kept = λ i h. b.kept i (ground arith) ∙ a.kept i (ground arith);
}

Zeroed-none : {lo hi : ℕ} {s t : State} → hi ≤ lo → Ready s → t ≡ s → Zeroed lo hi s t
Zeroed-none {s} p r e =
    rw e (record { ready = r; zeros = λ i from to. absurd (omega arith); kept = λ i h. refl })

-- Past the end the loop stops.
zero_loop-done :
    (rounds cap size offset : ℕ) (s : State)
    → 0 < rounds
    → size ≤ offset
    → Returns (λ _ t. t ≡ s) (zero_loop rounds cap size offset s)
unfolding zero_loop
zero_loop-done zero cap size offset s some h = absurd (omega arith)
zero_loop-done (suc rounds) cap size offset s some h =
    Returns-else (ltb offset size) _ _ (ground arith) (returns refl)

module _ (cap : ℕ) (writable : permits (capref_to_capability cap) perm_write ≡ true)
    (aligned : (capref_to_capability cap).base % 256 ≡ 0)
    (blocks : (capref_to_capability cap).size % 256 ≡ 0)
    (room : (capref_to_capability cap).base + (capref_to_capability cap).size ≤ files_size) where
  block-Returns :
      (offset : ℕ) {s : State}
      → Ready s
      → offset % 256 ≡ 0
      → offset + 256 < (capref_to_capability cap).size
      → let base = (capref_to_capability cap).base in
        Returns
          (λ _ t. Zeroed (base + offset) (base + offset + 256) s t)
          (capfs_backend_write cap offset zero_block 256 s)
  block-Returns offset r even below =
      Returns-mono
        (write-Returns cap offset 256 r below (omega arith) zero_block writable (omega arith)
          (omega arith) (omega arith))
        λ status t (_, w). record {
          ready = w.ready;
          zeros = λ i lo hi.
              w.data_put i ∙ patch-zeros (take 256 zero_block) _ _ i zero_block-zeros lo hi;
          kept = λ i h. w.data_put i ∙ patch_outside _ _ (take 256 zero_block) i h;
        }

  -- The last block, which ends where the capability ends, is refused.
  refused :
      (offset bytes : ℕ) (s : State)
      → offset + bytes ≡ (capref_to_capability cap).size
      → Returns (λ _ t. t ≡ s) (capfs_backend_write cap offset zero_block bytes s)
  unfolding capfs_backend_write
  refused offset bytes s e =
      Returns-else (not (permits (capref_to_capability cap) perm_write)) _ _ (ground arith) (
        Returns-else (is_negative offset) _ _ (ground arith) (
          Returns-then (leb (capref_to_capability cap).size (add64 offset bytes)) _ _ (ground arith)
            (returns refl)))

  zero_loop-Returns :
      (rounds offset : ℕ) {s : State}
      → Ready s
      → offset % 256 ≡ 0
      → (capref_to_capability cap).size < offset + 256 * rounds
      → offset < (capref_to_capability cap).size
      → let c = capref_to_capability cap in
        Returns
          (λ _ t. Zeroed (c.base + offset) (c.base + c.size - 256) s t)
          (zero_loop rounds cap c.size offset s)
  unfolding zero_loop
  zero_loop-Returns zero offset r even fuel more = absurd (omega arith)
  zero_loop-Returns (suc rounds) offset {s} r even fuel more =
      let c = capref_to_capability cap in
      let (base_fits, size_fits) = capref_to_capability_bounds cap in
      let next : add64 offset 256 ≡ offset + 256 = omega arith in
      let assoc : c.base + (offset + 256) ≡ c.base + offset + 256 = omega arith in
      Returns-then (ltb offset c.size) _ _ (ground arith) (
        rw next (elim (Bool-cases (ltb (offset + 256) c.size)) [
          | inl e ↦ rw e (
              Returns-bind (block-Returns offset r even (ltb→lt _ _ e)) λ _ t w.
                Returns-mono
                  (zero_loop-Returns rounds (offset + 256) w.ready (omega arith) (omega arith)
                    (ltb→lt _ _ e))
                  λ _ u z. Zeroed-join assoc (omega arith) (ground arith) w z)
          | inr e ↦ rw e (
              Returns-bind (refused offset (c.size - offset) s (omega arith)) λ _ t same.
                Returns-mono
                  (zero_loop-done rounds cap c.size (offset + 256) t (ground arith) (ground arith))
                  λ _ u stopped. Zeroed-none (ground arith) r (stopped ∙ same))
        ]))

  -- On a file of the expected size on which every call works, `capfs_backend_zero` of a writable
  -- capability that stands for a positive number of whole 256-byte blocks of the data region
  -- returns 0, zeroes all of them but the last, and changes no other data: the last block keeps
  -- its content.
  pub zero-Returns :
      {s : State}
      → Ready s
      → 0 < (capref_to_capability cap).size
      → let c = capref_to_capability cap in
        Returns
          (λ status t. (status ≡ pos 0) × Zeroed c.base (c.base + c.size - 256) s t)
          (capfs_backend_zero cap s)
  unfolding capfs_backend_zero
  zero-Returns {s} r some =
      let c = capref_to_capability cap in
      Returns-else (not (permits c perm_write)) _ _ (ground arith) (
        Returns-bind (zero_loop-Returns (c.size / 256 + 2) 0 r refl (omega arith) some) λ _ t z.
          returns (refl, subst (λ b. Zeroed b (c.base + c.size - 256) s t) (omega arith) z))
