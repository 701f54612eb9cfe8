-- ===== src/Bits.antt =====
-- `&`, `|` and `^` on machine words, as arithmetic.
mod Step
use Step.{and_step, or_step, xor_step, differ-mod}
use native.Mathlib.Nat.{pow-suc, one-le-pow}
use capfs.Base.{ℕ, zero, suc, ◌+◌, ◌-◌, ◌*◌, ◌/◌, ◌%◌, ◌^◌, ◌<◌, bit_and, bit_or, bit_xor}
use capfs.Base.{◌≡◌, refl, ap, arith, Bool, true, ◌&&◌, ◌==◌, ==_iff}
use Prim.Native.Nat.{bit_and-bitwise}

lt-two_pow : (a : ℕ) → a < 2 ^ a
lt-two_pow zero = omega arith
lt-two_pow (suc a) = omega (arith, pow-suc 2 a, lt-two_pow a)

-- Halving a number below `2 ^ suc k` leaves one below `2 ^ k`.
half-lt : (k a : ℕ) → a < 2 ^ suc k → a / 2 < 2 ^ k
half-lt k a h = omega (arith, pow-suc 2 k)

bit_or-zero_below : (k a : ℕ) → a < 2 ^ k → bit_or a 0 ≡ a
bit_or-zero_below zero a h = let e : a ≡ 0 = omega arith in rw e
bit_or-zero_below (suc k) a h =
    omega (arith, or_step a 0, bit_or-zero_below k (a / 2) (half-lt k a h))

bit_and-zero_below : (k a : ℕ) → a < 2 ^ k → bit_and a 0 ≡ 0
bit_and-zero_below zero a h = let e : a ≡ 0 = omega arith in rw e
bit_and-zero_below (suc k) a h =
    omega (arith, and_step a 0, bit_and-zero_below k (a / 2) (half-lt k a h))

-- Masking a number whose low field is `r`.
masked_field : (k q r : ℕ) → r < 2 ^ k → bit_and (q * 2 ^ k + r) (2 ^ k - 1) ≡ r
masked_field zero q r h =
    ground (arith, bit_and-zero_below (q * 2 ^ 0 + r) (q * 2 ^ 0 + r) (lt-two_pow (q * 2 ^ 0 + r)))
masked_field (suc k) q r h = ground (
  arith,
  pow-suc 2 k,
  one-le-pow k 2,
  ap (λ (t : ℕ). q * t) (pow-suc 2 k),
  and_step (q * 2 ^ suc k + r) (2 ^ suc k - 1),
  masked_field k q (r / 2) (half-lt k r h),
)

-- Masking with ones keeps the low field of a word.
pub bit_and_mask : (width word : ℕ) → bit_and word (2 ^ width - 1) ≡ word % 2 ^ width
bit_and_mask width word =
    ground (arith, one-le-pow width 2, masked_field width (word / 2 ^ width) (word % 2 ^ width))

-- Two fields that share no bit: `(q << k) | r` is their sum.
pub bit_or_fields : (k q r : ℕ) → r < 2 ^ k → bit_or (q * 2 ^ k) r ≡ q * 2 ^ k + r
bit_or_fields zero q r h = ground (arith, bit_or-zero_below q q (lt-two_pow q))
bit_or_fields (suc k) q r h = ground (
  arith,
  or_step (q * 2 ^ suc k) r,
  ap (λ (t : ℕ). q * t) (pow-suc 2 k),
  bit_or_fields k q (r / 2) (half-lt k r h),
)

-- `x ^ s ^ s` is `x`, and the two words stay below `2 ^ k`.
pub bit_xor_twice : (k a s : ℕ) → a < 2 ^ k → s < 2 ^ k → bit_xor (bit_xor a s) s ≡ a
bit_xor_twice zero a s ha hs =
    let a0 : a ≡ 0 = omega arith in let s0 : s ≡ 0 = omega arith in rw (a0, s0)
bit_xor_twice (suc k) a s ha hs = omega (
  arith,
  xor_step a s,
  xor_step (bit_xor a s) s,
  differ-mod a s,
  differ-mod (bit_xor a s) s,
  halved,
  bit_xor_twice k (a / 2) (s / 2) (half-lt k a ha) (half-lt k s hs),
)
  where
    halved : bit_xor (bit_xor a s / 2) (s / 2) ≡ bit_xor (bit_xor (a / 2) (s / 2)) (s / 2)
    halved = ap (λ (t : ℕ). bit_xor t (s / 2)) (omega (arith, xor_step a s, differ-mod a s))

pub bit_xor-lt : (k a s : ℕ) → a < 2 ^ k → s < 2 ^ k → bit_xor a s < 2 ^ k
bit_xor-lt zero a s ha hs =
    let a0 : a ≡ 0 = omega arith in let s0 : s ≡ 0 = omega arith in rw (a0, s0) (omega arith)
bit_xor-lt (suc k) a s ha hs = omega (
  arith,
  pow-suc 2 k,
  xor_step a s,
  differ-mod a s,
  bit_xor-lt k (a / 2) (s / 2) (half-lt k a ha) (half-lt k s hs),
)

pub bit_or_comm : (k a b : ℕ) → a < 2 ^ k → b < 2 ^ k → bit_or a b ≡ bit_or b a
bit_or_comm zero a b ha hb =
    let a0 : a ≡ 0 = omega arith in let b0 : b ≡ 0 = omega arith in rw (a0, b0)
bit_or_comm (suc k) a b ha hb = omega (
  arith,
  or_step a b,
  or_step b a,
  bit_or_comm k (a / 2) (b / 2) (half-lt k a ha) (half-lt k b hb),
)

pub zero-bit_and : (word : ℕ) → bit_and 0 word ≡ 0
zero-bit_and word = bit_and-bitwise 0 word

-- A statement about every number below `n`, by evaluation.
holds_below : ℕ → (ℕ → Bool) → Bool
holds_below zero test = true
holds_below (suc n) test = test n && holds_below n test

holds_below_lem :
    (n : ℕ) (test : ℕ → Bool) (x : ℕ) → holds_below n test ≡ true → x < n → test x ≡ true
unfolding holds_below
holds_below_lem zero test x all h = absurd (omega arith)
holds_below_lem (suc n) test x all h = ground (arith, holds_below_lem n test x)

ones_table : holds_below 32 (λ b. bit_or 0xffff_ffff (2 ^ b) == 0xffff_ffff) ≡ true
unfolding holds_below
ones_table = refl

-- Setting a bit of a word of ones changes nothing.
pub ones-bit_or : (b : ℕ) → b < 32 → bit_or 0xffff_ffff (2 ^ b) ≡ 0xffff_ffff
ones-bit_or b h = (==_iff _ _).0 (holds_below_lem 32 _ b ones_table h)
