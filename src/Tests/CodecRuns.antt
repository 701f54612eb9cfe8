-- ===== src/Tests/CodecRuns.antt =====
-- The theorems on the codecs, at concrete inputs.
use capfs.Base.{◌≡◌, refl, arith}
use capfs.Capability.{Capability, IsCapability}
use capfs.Capability.{capref_to_capability, capability_to_capref}
use capfs.Capability.RoundTrip.{capref_to_capability-capability_to_capref}

-- 64 KiB at 1 MiB, to be read.
abbrev small : Capability
small = record { base = 0x10_0000; size = 0x1_0000; size_bits = 16; perms = 2 }

small-IsCapability : IsCapability small
small-IsCapability = record {
  base_fits = omega arith;
  bits_fit = omega arith;
  perms_fit = omega arith;
  size_agrees = refl;
}

capref_to_capability-capability_to_capref_example :
    capref_to_capability (capability_to_capref small) ≡ small
capref_to_capability-capability_to_capref_example =
    capref_to_capability-capability_to_capref small small-IsCapability
