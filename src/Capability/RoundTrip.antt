-- ===== src/Capability/RoundTrip.antt =====
-- The compressed form and the reference lose nothing.
use native.Mathlib.Nat.{pow-le-pow_right}
use capfs.Base.{◌≤◌, ℕ, ◌+◌, ◌*◌, ◌/◌, ◌%◌, ◌^◌, ◌<◌, ◌≡◌, refl, sym, ap, ◌∙◌, bit_xor, arith}
use capfs.Bits.{bit_and_mask, bit_or_fields, bit_or_comm, bit_xor_twice, bit_xor-lt}
use capfs.Capability.{Capability, IsCapability, capref_salt, capability_decompress}
use capfs.Capability.{capability_compres, capref_to_capability, capability_to_capref}

-- The three fields share no bit, so the compressed form is a sum.
pub compres-sum :
    (c : Capability)
    → c.size_bits < 2 ^ 8
    → c.perms < 2 ^ 8
    → capability_compres c ≡ c.perms * 2 ^ 56 + (c.size_bits * 2 ^ 48 + c.base % 2 ^ 48)
unfolding capability_compres
compres-sum c hb hp = ground (
  arith,
  bit_and_mask 48 c.base,
  bit_or_fields 48 c.size_bits (c.base % 2 ^ 48),
  bit_or_comm 64 (c.size_bits * 2 ^ 48 + c.base % 2 ^ 48) (c.perms * 2 ^ 56),
  bit_or_fields 56 c.perms (c.size_bits * 2 ^ 48 + c.base % 2 ^ 48),
)

pub decompress_fields :
    (x : ℕ)
    → x < 2 ^ 64
    → let c = capability_decompress x in
      (c.base ≡ x % 2 ^ 48) × (c.size_bits ≡ x / 2 ^ 48 % 2 ^ 8) × (c.perms ≡ x / 2 ^ 56)
unfolding capability_decompress
decompress_fields x h = ground (arith, bit_and_mask 48 x, bit_and_mask 8 (x / 2 ^ 48))

decompress-size :
    (x : ℕ) → (capability_decompress x).size ≡ 2 ^ ((capability_decompress x).size_bits % 64)
unfolding capability_decompress
decompress-size x = refl

Capability_ext :
    (c d : Capability)
    → c.base ≡ d.base
    → c.size ≡ d.size
    → c.size_bits ≡ d.size_bits
    → c.perms ≡ d.perms
    → c ≡ d
Capability_ext c d p q r s = λ i. record { base = p i; size = q i; size_bits = r i; perms = s i }

-- A capability whose fields fit their places, and whose size is what its size bits say, comes back
-- from its 64-bit form.
pub decompress-compres :
    (c : Capability) → IsCapability c → capability_decompress (capability_compres c) ≡ c
decompress-compres c v =
    let sum = compres-sum c (omega arith) v.perms_fit in
    let fields = decompress_fields (capability_compres c) (omega arith) in
    let bits : (capability_decompress (capability_compres c)).size_bits ≡ c.size_bits =
      omega arith in
    Capability_ext (capability_decompress (capability_compres c)) c (omega arith)
      (decompress-size (capability_compres c)
        ∙ ap (λ (t : ℕ). 2 ^ t) (omega arith)
        ∙ sym v.size_agrees)
      bits (omega arith)

-- Every 64-bit word is the form of the capability that it is decompressed to.
pub compres-decompress : (x : ℕ) → x < 2 ^ 64 → capability_compres (capability_decompress x) ≡ x
compres-decompress x h = ground (arith, decompress_fields x, compres-sum (capability_decompress x))

-- A compressed capability is a 64-bit word.
compres-lt : (c : Capability) → IsCapability c → capability_compres c < 2 ^ 64
compres-lt c v = omega (arith, compres-sum c (omega arith) v.perms_fit)

-- A capability whose fields fit their places, and whose size is what its size bits say, comes back
-- from the salted reference to it.
pub capref_to_capability-capability_to_capref :
    (c : Capability) → IsCapability c → capref_to_capability (capability_to_capref c) ≡ c
unfolding capref_to_capability capability_to_capref
capref_to_capability-capability_to_capref c v =
    rw (bit_xor_twice 64 (capability_compres c) capref_salt (compres-lt c v) (omega arith))
      (decompress-compres c v)

-- Every 64-bit word, taken as a reference, comes back from the capability that it stands for.
pub capability_to_capref-capref_to_capability :
    (w : ℕ) → w < 2 ^ 64 → capability_to_capref (capref_to_capability w) ≡ w
unfolding capref_to_capability capability_to_capref
capability_to_capref-capref_to_capability w h =
    rw (compres-decompress (bit_xor w capref_salt) (bit_xor-lt 64 w capref_salt h (omega arith)))
      (bit_xor_twice 64 w capref_salt h (omega arith))

-- A capability that a reference stands for begins below 2^48 and spans at most 2^63 bytes.
pub capref_to_capability_bounds :
    (cap : ℕ)
    → ((capref_to_capability cap).base < 2 ^ 48) × ((capref_to_capability cap).size ≤ 2 ^ 63)
unfolding capref_to_capability
capref_to_capability_bounds cap = (
  omega (arith, bit_and_mask 48 (bit_xor cap capref_salt)),
  pow-le-pow_right (omega arith) {j = 63} (omega arith),
)
