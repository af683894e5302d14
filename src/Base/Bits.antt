-- ===== src/Base/Bits.antt =====
-- Facts about the native bit operations: the lowest digit of `bit_or`, setting a bit above the
-- others, and exhaustive checks over a byte.
use Prim.Native.Nat.{
  ℕ, zero, suc, ◌+◌, ◌*◌, ◌/◌, ◌%◌, ◌^◌, ◌≤◌, ◌<◌, max, bit_or, digits, bit_or-bitwise,
}
use native.Mathlib.Nat.{pow-suc}
use mathlib.Core.Path.{◌≡◌, refl}
use mathlib.Core.Bool.{Bool, true, ◌&&◌}
use native.Mathlib.Omega.{arith}

-- `or_rounds` more rounds than the first number has digits change nothing.
abbrev or_rounds : ℕ → ℕ → ℕ → ℕ
or_rounds rounds a b = digits (λ rest. rest) max rounds a b

or_rounds_enough : (n m a b : ℕ) → a ≤ n → a ≤ m → or_rounds n a b ≡ or_rounds m a b
or_rounds_enough zero zero a b p q = refl
or_rounds_enough zero (suc m) zero b p q = refl
or_rounds_enough zero (suc m) (suc a) b p q = absurd (omega arith)
or_rounds_enough (suc n) zero zero b p q = refl
or_rounds_enough (suc n) zero (suc a) b p q = absurd (omega arith)
or_rounds_enough (suc n) (suc m) zero b p q = refl
or_rounds_enough (suc n) (suc m) (suc a) b p q =
    omega (arith, or_rounds_enough n m (suc a / 2) (b / 2) (omega arith) (omega arith))

zero-bit_or : (b : ℕ) → bit_or 0 b ≡ b
zero-bit_or b = bit_or-bitwise 0 b

bit_or_lowest : (a b : ℕ) → bit_or a b ≡ bit_or (a / 2) (b / 2) * 2 + max (a % 2) (b % 2)
bit_or_lowest zero b = omega (arith, zero-bit_or b, zero-bit_or (b / 2))
bit_or_lowest (suc a) b = omega (
  arith,
  bit_or-bitwise (suc a) b,
  bit_or-bitwise (suc a / 2) (b / 2),
  or_rounds_enough a (suc a / 2) (suc a / 2) (b / 2) (omega arith) (omega arith),
)

-- `mask | 1 << i` adds the bit where the mask is below it.
pub bit_or-top : (i mask : ℕ) → mask < 2 ^ i → bit_or mask (2 ^ i) ≡ mask + 2 ^ i
bit_or-top zero mask h = let e : mask ≡ 0 = omega arith in rw e refl
bit_or-top (suc i) mask h =
    ground (arith, pow-suc 2 i, bit_or_lowest mask (2 ^ suc i), bit_or-top i (mask / 2))

-- A check of every value below a bound, by evaluation.
unfoldable pub holds_below : ℕ → (ℕ → Bool) → Bool
holds_below zero test = true
holds_below (suc n) test = test n && holds_below n test

pub holds_below_at :
    (n : ℕ) (test : ℕ → Bool) (x : ℕ) → holds_below n test ≡ true → x < n → test x ≡ true
unfolding holds_below
holds_below_at zero test x h below = absurd (omega arith)
holds_below_at (suc n) test x h below = ground (arith, holds_below_at n test x)
