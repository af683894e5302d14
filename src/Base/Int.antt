-- ===== src/Base/Int.antt =====
-- `i64` values as signed integers, with the conversions that the fixtures use.
use Prim.Native.Nat.{ℕ, suc, ◌+◌, ◌-◌, ◌^◌, min}
use mathlib.Core.Option.{Option, none, some}
use o_sfu_benchmarks.Base.Tests.{ltb, if◌then◌else◌}

-- `negsuc n` is -(n + 1).
pub data ℤ : Type 0 where
  pos : ℕ → ℤ
  negsuc : ℕ → ℤ

-- `i64::try_from(usize)`
abbrev pub i64_try_from : ℕ → Option ℤ
i64_try_from n = if ltb n (2 ^ 63) then some (pos n) else none

-- `u64::try_from(i64)`
abbrev pub u64_try_from_i64 : ℤ → Option ℕ
u64_try_from_i64 (pos n) = some n
u64_try_from_i64 (negsuc n) = none

-- `i64::saturating_add` of a number that is not negative
abbrev pub i64_saturating_add : ℤ → ℕ → ℤ
i64_saturating_add (pos n) k = pos (min (n + k) (2 ^ 63 - 1))
i64_saturating_add (negsuc n) k =
    if ltb n k then pos (min (k - suc n) (2 ^ 63 - 1)) else negsuc (n - k)
