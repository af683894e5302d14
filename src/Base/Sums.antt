-- ===== src/Base/Sums.antt =====
-- Sums of lists, and of the values of a function at the first numbers.
use Prim.Native.Nat.{ℕ, zero, suc, ◌+◌, ◌*◌, ◌≤◌, ◌<◌}
use mathlib.Core.Path.{◌≡◌, refl, ap}
use mathlib.Core.List.{List, [], ◌∷◌, ◌++◌}
use native.Mathlib.Omega.{arith}
use native.Mathlib.Decide.{dec_lt}
use o_sfu_benchmarks.Base.Tests.{ltb, ◌==◌, if◌then◌else◌}
use o_sfu_benchmarks.Base.Lists.{tabulate}

abbrev pub sum : List ℕ → ℕ
sum [] = 0
sum (x ∷ xs) = x + sum xs

pub sum-append : (xs ys : List ℕ) → sum (xs ++ ys) ≡ sum xs + sum ys
sum-append [] ys = omega arith
sum-append (x ∷ xs) ys = omega (arith, sum-append xs ys)

abbrev pub sum_upto : (ℕ → ℕ) → ℕ → ℕ
sum_upto f zero = 0
sum_upto f (suc n) = sum_upto f n + f n

pub sum-tabulate : (f : ℕ → ℕ) (n : ℕ) → sum (tabulate f n) ≡ sum_upto f n
sum-tabulate f zero = refl
sum-tabulate f (suc n) = omega (arith, sum-tabulate f n, sum-append (tabulate f n) (f n ∷ []))

pub sum_upto-const : (k n : ℕ) → sum_upto (λ w. k) n ≡ n * k
sum_upto-const k zero = omega arith
sum_upto-const k (suc n) = omega (arith, sum_upto-const k n)

pub sum_upto_congr :
    (g h : ℕ → ℕ) (n : ℕ) → ((w : ℕ) → w < n → g w ≡ h w) → sum_upto g n ≡ sum_upto h n
sum_upto_congr g h zero e = refl
sum_upto_congr g h (suc n) e =
    omega (arith, e n (omega arith), sum_upto_congr g h n (λ w p. e w (omega arith)))

-- Only the term at the index counts.
pub sum_upto-single :
    (g : ℕ → ℕ) (w n : ℕ)
    → sum_upto (λ v. if w == v then g v else 0) n ≡ (if ltb w n then g w else 0)
sum_upto-single g w zero = ground arith
sum_upto-single g w (suc n) = ground (arith, sum_upto-single g w n, ap g)

pub sum_upto-le : (g : ℕ → ℕ) (w n : ℕ) → w < n → g w ≤ sum_upto g n
sum_upto-le g w zero h = absurd (omega arith)
sum_upto-le g w (suc n) h = elim (dec_lt w n) [
  | yes below ↦ omega (arith, sum_upto-le g w n below)
  | no last ↦ let same : w ≡ n = omega arith in omega (arith, ap g same)
]
