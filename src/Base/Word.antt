-- ===== src/Base/Word.antt =====
-- `u64` and the other unsigned widths: a value is a native number below `2 ^ w`, and each
-- operation writes its saturation or its wrap-around out. `usize` is the 64-bit one.
use Prim.Native.Nat.{ℕ, ◌+◌, ◌-◌, ◌*◌, ◌/◌, ◌%◌, ◌^◌, ◌≤◌, min}
use mathlib.Core.Path.{◌≡◌}
use native.Mathlib.Omega.{arith}

abbrev pub u64_max : ℕ
u64_max = 0xffff_ffff_ffff_ffff

-- `u64::saturating_add` and `usize::saturating_add`
abbrev pub saturating_add : ℕ → ℕ → ℕ
saturating_add a b = min (a + b) u64_max

-- `u64::saturating_sub` and `usize::saturating_sub`
abbrev pub saturating_sub : ℕ → ℕ → ℕ
saturating_sub a b = a - b

abbrev pub saturating_mul : ℕ → ℕ → ℕ
saturating_mul a b = min (a * b) u64_max

-- `u64::wrapping_add`, and what `AtomicU64::fetch_add` stores
abbrev pub wrapping_add : ℕ → ℕ → ℕ
wrapping_add a b = (a + b) % 2 ^ 64

abbrev pub wrapping_mul : ℕ → ℕ → ℕ
wrapping_mul a b = (a * b) % 2 ^ 64

-- `u64::rotate_left(k)` for `k < 64`: the high `k` bits come back at the low end.
unfoldable pub rotate_left : ℕ → ℕ → ℕ
rotate_left x k = (x * 2 ^ k) % 2 ^ 64 + x / 2 ^ (64 - k)

pub saturating_add_assoc :
    (a b c : ℕ) → saturating_add (saturating_add a b) c ≡ saturating_add a (saturating_add b c)
saturating_add_assoc a b c = omega arith

pub saturating_add_fits : (a b : ℕ) → a + b ≤ u64_max → saturating_add a b ≡ a + b
saturating_add_fits a b h = omega arith

pub wrapping_add_fits : (a b : ℕ) → a + b ≤ u64_max → wrapping_add a b ≡ a + b
wrapping_add_fits a b h = omega arith
