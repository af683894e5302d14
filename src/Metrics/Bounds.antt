-- ===== src/Metrics/Bounds.antt =====
-- How much the workers of the fixture that `new` in src/packet_metrics.rs builds have to count.
use native.Mathlib.Nat.{mul-le-mul_right}
use o_sfu_benchmarks.Base.{
  ℕ, zero, suc, ◌+◌, ◌*◌, ◌≤◌, List, [], ◌∷◌, ◌++◌, ◌≡◌, ap, arith, length-tabulate, tabulate,
  u64_max,
}
use o_sfu_benchmarks.Base.Sums.{sum_upto}
use o_sfu_benchmarks.Metrics.{operations_per_worker, payload_bytes, new}
use o_sfu_benchmarks.Metrics.Counts.{bytes_of}
use o_sfu_benchmarks.Metrics.Agreement.{traffic}

bytes_of-append : (w : ℕ) (xs ys : List ℕ) → bytes_of w (xs ++ ys) ≡ bytes_of w xs + bytes_of w ys
bytes_of-append w [] ys = omega arith
bytes_of-append w (x ∷ xs) ys = omega (arith, bytes_of-append w xs ys)

bytes_of-bound : (w n : ℕ) → w ≤ 1_000_000 → bytes_of w (tabulate payload_bytes n) ≤ n * 1_001_400
unfolding payload_bytes
bytes_of-bound w zero h = omega arith
bytes_of-bound w (suc n) h = omega (
  arith,
  bytes_of-bound w n h,
  bytes_of-append w (tabulate payload_bytes n) (payload_bytes n ∷ []),
)

all_bytes-bound :
    (workers n : ℕ)
    → workers ≤ 1_000_000
    → sum_upto (λ w. bytes_of w (tabulate payload_bytes n)) workers ≤ workers * (n * 1_001_400)
all_bytes-bound zero n h = omega arith
all_bytes-bound (suc workers) n h =
    omega (arith, all_bytes-bound workers n (omega arith), bytes_of-bound workers n (omega arith))

operations_bound : operations_per_worker ≤ 262_144
unfolding operations_per_worker
operations_bound = omega arith

-- Up to a million workers have no more traffic than a `u64` holds.
pub new-traffic-fits : (workers : ℕ) → workers ≤ 1_000_000 → traffic (new workers) ≤ u64_max
unfolding new
new-traffic-fits workers h =
    let n = operations_per_worker in
    let product : workers * n ≤ 1_000_000 * n = mul-le-mul_right n h in
    omega (
      arith,
      product,
      operations_bound,
      all_bytes-bound workers n h,
      ap (λ (t : ℕ). workers * t) (length-tabulate payload_bytes n),
    )
