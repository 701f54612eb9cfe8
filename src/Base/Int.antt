-- ===== src/Base/Int.antt =====
-- What the C functions return: an `int` or a `long`, and the error numbers of Linux.
use Prim.Native.Nat.{ℕ, zero, suc}
use mathlib.Core.Bool.{Bool, true, false}

-- `negsuc n` is -(n + 1).
pub data ℤ : Type 0 where
  pos : ℕ → ℤ
  negsuc : ℕ → ℤ

abbrev pub neg : ℕ → ℤ
neg zero = pos 0
neg (suc n) = negsuc n

-- `if (err)`
abbrev pub is_nonzero : ℤ → Bool
is_nonzero (pos zero) = false
is_nonzero (pos (suc n)) = true
is_nonzero (negsuc n) = true

abbrev pub enoent : ℕ
enoent = 2

abbrev pub enomem : ℕ
enomem = 12

abbrev pub eacces : ℕ
eacces = 13

abbrev pub einval : ℕ
einval = 22

abbrev pub enosys : ℕ
enosys = 38

abbrev pub enotsup : ℕ
enotsup = 95
