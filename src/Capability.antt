-- ===== src/Capability.antt =====
-- src/backends/files.c, lines 48 to 158: the capability of the file backend, its 64-bit form, and
-- the salted reference `capfs_capref_t` that is handed out for it. A `capfs_capref_t` is a struct
-- with the one field `capaddr`, and is modelled by that number.
pub mod RoundTrip
use capfs.Base.{ℕ, ◌*◌, ◌/◌, ◌%◌, ◌^◌, ◌<◌, ◌≡◌, bit_and, bit_or, bit_xor, Bool, not, ◌==◌}

-- `capfs_capperms_t` and the permission bits of capfs_backend.h.
abbrev pub perm_read : ℕ
perm_read = 2

abbrev pub perm_write : ℕ
perm_write = 4

abbrev pub perm_exec : ℕ
perm_exec = 8

abbrev pub perm_all : ℕ
perm_all = bit_or (bit_or perm_read perm_write) perm_exec

pub record Capability : Type 0 where
  pub base : ℕ
  pub size : ℕ
  pub size_bits : ℕ
  pub perms : ℕ

-- `1UL << n` for an eight-bit `n`. C leaves `n` above 63 undefined; x86-64 takes `n` modulo 64.
abbrev pub one_shifted : ℕ → ℕ
one_shifted n = 2 ^ (n % 64)

-- `c.perms & bit`, as a condition.
abbrev pub permits : Capability → ℕ → Bool
permits c bit = not (bit_and c.perms bit == 0)

unfoldable pub capability_decompress : ℕ → Capability
capability_decompress comp =
    let bits = bit_and (comp / 2 ^ 48) 0xff % 2 ^ 8 in
    record {
      base = bit_and comp 0xffff_ffff_ffff;
      size = one_shifted bits;
      size_bits = bits;
      perms = comp / 2 ^ 56 % 2 ^ 8;
    }

unfoldable pub capability_compres : Capability → ℕ
capability_compres cap =
    bit_or (bit_or (cap.size_bits * 2 ^ 48 % 2 ^ 64) (bit_and cap.base 0xffff_ffff_ffff))
      (cap.perms * 2 ^ 56 % 2 ^ 64)

abbrev pub capref_salt : ℕ
capref_salt = 0xaaaa_aaaa_aaaa_aaaa

-- The status of both conversions is always 0, so only the converted value is returned.
unfoldable pub capref_to_capability : ℕ → Capability
unfolding capability_decompress
capref_to_capability capaddr = capability_decompress (bit_xor capaddr capref_salt)

unfoldable pub capability_to_capref : Capability → ℕ
unfolding capability_compres
capability_to_capref cap = bit_xor (capability_compres cap) capref_salt

-- The fields fit their places, and `size` is what `size_bits` says.
pub record IsCapability (c : Capability) : Type 0 where
  pub base_fits : c.base < 2 ^ 48
  pub bits_fit : c.size_bits < 64
  pub perms_fit : c.perms < 2 ^ 8
  pub size_agrees : c.size ≡ 2 ^ c.size_bits
