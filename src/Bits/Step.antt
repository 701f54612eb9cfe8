-- ===== src/Bits/Step.antt =====
-- The native operations recurse on binary digits with a count of digits to go. Here the count is
-- dropped: one equation for the lowest digit of each operation.
use Prim.Native.Nat.{min, max, differ, digits, bit_and-bitwise, bit_or-bitwise, bit_xor-bitwise}
use capfs.Base.{
  ℕ, zero, suc, ◌+◌, ◌*◌, ◌/◌, ◌%◌, ◌≤◌, ◌<◌, bit_and, bit_or, bit_xor, ◌≡◌, refl, arith,
}

module _ (z : ℕ → ℕ) (f : ℕ → ℕ → ℕ) where
  digits-zero : (n b : ℕ) → digits z f n 0 b ≡ z b
  digits-zero zero b = refl
  digits-zero (suc n) b = refl

  -- Any two counts that are large enough give the same result.
  count_irrelevant : (m n a b : ℕ) → a ≤ m → a ≤ n → digits z f m a b ≡ digits z f n a b
  count_irrelevant m n zero b p q = rw (digits-zero m b, digits-zero n b)
  count_irrelevant zero n (suc a) b p q = absurd (omega arith)
  count_irrelevant (suc m) zero (suc a) b p q = absurd (omega arith)
  count_irrelevant (suc m) (suc n) (suc a) b p q =
      rw (count_irrelevant m n (suc a / 2) (b / 2) (omega arith) (omega arith))

  lowest_digit :
      (a b : ℕ)
      → digits z f (suc a) (suc a) b
        ≡ digits z f (suc a / 2) (suc a / 2) (b / 2) * 2 + f (suc a % 2) (b % 2)
  lowest_digit a b =
      rw (count_irrelevant a (suc a / 2) (suc a / 2) (b / 2) (omega arith) (omega arith))

-- An operation that works digit by digit, as `f` does on one digit.
abbrev pub Digitwise : (ℕ → ℕ → ℕ) → (ℕ → ℕ → ℕ) → Type 0
Digitwise op f = (x y : ℕ) → op x y ≡ op (x / 2) (y / 2) * 2 + f (x % 2) (y % 2)

pub xor_step : Digitwise bit_xor differ
xor_step zero y = simp bit_xor-bitwise (omega arith)
xor_step (suc x) y = simp bit_xor-bitwise (lowest_digit (λ n. n) differ x y)

pub or_step : Digitwise bit_or max
or_step zero y = simp bit_or-bitwise (omega arith)
or_step (suc x) y = simp bit_or-bitwise (lowest_digit (λ n. n) max x y)

pub and_step : Digitwise bit_and min
and_step zero y = simp bit_and-bitwise (omega arith)
and_step (suc x) y = simp bit_and-bitwise (lowest_digit (λ n. 0) min x y)

-- On one digit, `differ` is a sum modulo 2.
pub differ-mod : (a b : ℕ) → differ (a % 2) (b % 2) ≡ (a % 2 + b % 2) % 2
differ-mod a b = differ_digit (a % 2) (b % 2) (omega arith) (omega arith)
  where
    differ_digit : (x y : ℕ) → x < 2 → y < 2 → differ x y ≡ (x + y) % 2
    differ_digit zero y p q = omega arith
    differ_digit (suc zero) zero p q = refl
    differ_digit (suc zero) (suc zero) p q = refl
    differ_digit (suc zero) (suc (suc y)) p q = absurd (omega arith)
    differ_digit (suc (suc x)) y p q = absurd (omega arith)
