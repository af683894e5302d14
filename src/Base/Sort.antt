-- ===== src/Base/Sort.antt =====
-- `sort_by_key`, `dedup`, and the number of different values in a list.
use Prim.Native.Nat.{ℕ, zero, suc, ◌+◌, ◌≤◌, ◌<◌, min}
use mathlib.Core.Path.{◌≡◌, refl, ap, ◌∙◌}
use mathlib.Core.Bool.{Bool, true, false, ◌||◌}
use mathlib.Core.List.{List, [], ◌∷◌, ◌++◌, map}
use mathlib.Core.Logic.{◌≢◌, inl, inr}
use native.Mathlib.Omega.{arith}
use native.Mathlib.Decide.{dec_le, ℕ_discrete}
use o_sfu_benchmarks.Base.Tests.{leb, ◌==◌, if◌then◌else◌, Bool-cases, ==_iff}
use o_sfu_benchmarks.Base.Lists.{All, length, any, any-append, tabulate}

module _ {A : Type 0} (key : A → ℕ) where
  insert_by : A → List A → List A
  insert_by x [] = x ∷ []
  insert_by x (y ∷ ys) =
      let rest = insert_by x ys in if leb (key x) (key y) then x ∷ y ∷ ys else y ∷ rest

  -- `sort_by_key`: stable, so that an element stays in front of the later ones with its key.
  unfoldable pub sort_by_key : List A → List A
  unfolding insert_by
  sort_by_key [] = []
  sort_by_key (x ∷ xs) = insert_by x (sort_by_key xs)

-- No later value is less.
abbrev pub IsSorted : List ℕ → Type 0
IsSorted [] = Unit
IsSorted (x ∷ xs) = All (λ y. x ≤ y) xs × IsSorted xs

-- `dedup` of a `Vec`, of which the first value is given: repeated neighbours go.
unfoldable pub dedup_from : ℕ → List ℕ → List ℕ
dedup_from x [] = x ∷ []
dedup_from x (y ∷ ys) =
    let same = dedup_from x ys in let rest = dedup_from y ys in if x == y then same else x ∷ rest

unfoldable pub dedup : List ℕ → List ℕ
unfolding dedup_from
dedup [] = []
dedup (x ∷ xs) = dedup_from x xs

-- The number of different values in a list that were not seen before.
abbrev pub fresh : (ℕ → Bool) → List ℕ → ℕ
fresh seen [] = 0
fresh seen (x ∷ xs) = (if seen x then 0 else 1) + fresh (λ k. seen k || k == x) xs

All-imp : {P Q : ℕ → Type 0} (xs : List ℕ) → ((x : ℕ) → P x → Q x) → All P xs → All Q xs
All-imp [] f u = tt
All-imp (x ∷ xs) f u = (f x u.0, All-imp xs f u.1)

fresh_congr : (s t : ℕ → Bool) (xs : List ℕ) → All (λ k. s k ≡ t k) xs → fresh s xs ≡ fresh t xs
fresh_congr s t [] u = refl
fresh_congr s t (x ∷ xs) u =
    let rest =
      fresh_congr (λ k. s k || k == x) (λ k. t k || k == x) xs
        (All-imp xs (λ k e. ap (λ b. b || k == x) e) u.1) in
    ground (arith, rest, u.0)

holds_throughout : {P : ℕ → Type 0} (xs : List ℕ) → ((x : ℕ) → P x) → All P xs
holds_throughout [] f = tt
holds_throughout (x ∷ xs) f = (f x, holds_throughout xs f)

pub fresh_ext : (s t : ℕ → Bool) (xs : List ℕ) → ((k : ℕ) → s k ≡ t k) → fresh s xs ≡ fresh t xs
fresh_ext s t xs e = fresh_congr s t xs (holds_throughout xs e)

fresh_swap : (s : ℕ → Bool) (x y : ℕ) (zs : List ℕ) → fresh s (x ∷ y ∷ zs) ≡ fresh s (y ∷ x ∷ zs)
fresh_swap s x y zs =
    let rest =
      fresh_congr (λ k. (s k || k == x) || k == y) (λ k. (s k || k == y) || k == x) zs
        (holds_throughout zs (λ k. ground arith)) in
    ground (arith, rest)

-- The number of elements that pass a test.
abbrev pub count {ℓ} : {A : Type ℓ} → (A → Bool) → List A → ℕ
count p [] = 0
count p (x ∷ xs) = (if p x then 1 else 0) + count p xs

module _ {A : Type 0} (key : A → ℕ) where
  count-insert_by :
      (p : ℕ → Bool) (x : A) (ys : List A)
      → count p (map key (insert_by key x ys)) ≡ count p (key x ∷ map key ys)
  unfolding insert_by
  count-insert_by p x [] = refl
  count-insert_by p x (y ∷ ys) = ground (arith, count-insert_by p x ys)

  pub count-sort_by_key :
      (p : ℕ → Bool) (xs : List A) → count p (map key (sort_by_key key xs)) ≡ count p (map key xs)
  unfolding sort_by_key
  count-sort_by_key p [] = refl
  count-sort_by_key p (x ∷ xs) =
      omega (arith, count-insert_by p x (sort_by_key key xs), count-sort_by_key p xs)

  fresh-insert_by :
      (s : ℕ → Bool) (x : A) (ys : List A)
      → fresh s (map key (insert_by key x ys)) ≡ fresh s (key x ∷ map key ys)
  unfolding insert_by
  fresh-insert_by s x [] = refl
  fresh-insert_by s x (y ∷ ys) = ground (
    arith,
    fresh-insert_by (λ k. s k || k == key y) x ys,
    fresh_swap s (key y) (key x) (map key ys),
  )

  pub fresh-sort_by_key :
      (s : ℕ → Bool) (xs : List A) → fresh s (map key (sort_by_key key xs)) ≡ fresh s (map key xs)
  unfolding sort_by_key
  fresh-sort_by_key s [] = refl
  fresh-sort_by_key s (x ∷ xs) =
      fresh-insert_by s x (sort_by_key key xs)
      ∙ ap (λ n. (if s (key x) then 0 else 1) + n) (fresh-sort_by_key (λ k. s k || k == key x) xs)

  length-insert_by : (x : A) (ys : List A) → length (insert_by key x ys) ≡ suc (length ys)
  unfolding insert_by
  length-insert_by x [] = refl
  length-insert_by x (y ∷ ys) = ground (arith, length-insert_by x ys)

  pub length-sort_by_key : (xs : List A) → length (sort_by_key key xs) ≡ length xs
  unfolding sort_by_key
  length-sort_by_key [] = refl
  length-sort_by_key (x ∷ xs) =
      omega (arith, length-sort_by_key xs, length-insert_by x (sort_by_key key xs))

  All-insert_by :
      (P : ℕ → Type 0) (x : A) (ys : List A)
      → P (key x)
      → All P (map key ys)
      → All P (map key (insert_by key x ys))
  unfolding insert_by
  All-insert_by P x [] p u = (p, tt)
  All-insert_by P x (y ∷ ys) p u = elim (Bool-cases (leb (key x) (key y))) [
    | inl h ↦ rw h (p, u)
    | inr h ↦ rw h (u.0, All-insert_by P x ys p u.1)
  ]

  insert_by-IsSorted :
      (x : A) (ys : List A) → IsSorted (map key ys) → IsSorted (map key (insert_by key x ys))
  unfolding insert_by
  insert_by-IsSorted x [] u = (tt, tt)
  insert_by-IsSorted x (y ∷ ys) u = elim (Bool-cases (leb (key x) (key y))) [
    | inl h ↦
        let below : key x ≤ key y = ground (arith, h) in
        rw h ((below, All-imp (map key ys) (λ k e. omega arith) u.0), u)
    | inr h ↦
        let above : key y ≤ key x = ground (arith, h) in
        rw h (All-insert_by (λ k. key y ≤ k) x ys above u.0, insert_by-IsSorted x ys u.1)
  ]

  pub sort_by_key-IsSorted : (xs : List A) → IsSorted (map key (sort_by_key key xs))
  unfolding sort_by_key
  sort_by_key-IsSorted [] = tt
  sort_by_key-IsSorted (x ∷ xs) =
      insert_by-IsSorted x (sort_by_key key xs) (sort_by_key-IsSorted xs)

dedup_from-fresh :
    (x : ℕ) (ys : List ℕ)
    → All (λ y. x ≤ y) ys
    → IsSorted ys
    → length (dedup_from x ys) ≡ 1 + fresh (λ k. k == x) ys
unfolding dedup_from
dedup_from-fresh x [] u v = refl
dedup_from-fresh x (y ∷ ys) u v = elim (Bool-cases (x == y)) [
  | inl h ↦
      let e = (==_iff x y).0 h in
      let tail =
        fresh_congr (λ k. k == x) (λ k. k == x || k == y) ys
          (holds_throughout ys (λ k. ground (arith, e))) in
      ground (arith, h, dedup_from-fresh x ys u.1 v.1, tail)
  | inr h ↦
      let above : x < y = ground (arith, h, u.0) in
      let tail =
        fresh_congr (λ k. k == y) (λ k. k == x || k == y) ys
          (All-imp ys (λ k below. ground (arith, above, below)) v.0) in
      ground (arith, h, above, dedup_from-fresh y ys v.0 v.1, tail)
]

-- In a sorted list the neighbours are all there is to compare.
pub dedup-fresh : (xs : List ℕ) → IsSorted xs → length (dedup xs) ≡ fresh (λ k. false) xs
unfolding dedup
dedup-fresh [] v = refl
dedup-fresh (x ∷ xs) v = dedup_from-fresh x xs v.0 v.1

pub fresh-append :
    (s : ℕ → Bool) (xs : List ℕ) (y : ℕ)
    → fresh s (xs ++ y ∷ []) ≡ fresh s xs + (if s y || any (λ k. k == y) xs then 0 else 1)
fresh-append s [] y = ground arith
fresh-append s (x ∷ xs) y = ground (arith, fresh-append (λ k. s k || k == x) xs y)

-- A list that repeats its first values, which differ.
module _ (f : ℕ → ℕ) (m : ℕ) (apart : (i j : ℕ) → i < j → j < m → f i ≢ f j)
    (again : (j : ℕ) → m ≤ j → (i : ℕ) × (i < j) × (f i ≡ f j)) where
  seen_in : (n i : ℕ) (y : ℕ) → i < n → f i ≡ y → any (λ k. k == y) (tabulate f n) ≡ true
  seen_in zero i y h e = absurd (omega arith)
  seen_in (suc n) i y h e = elim (ℕ_discrete i n) [
    | yes last ↦ ground (arith, any-append (λ k. k == y) (tabulate f n) (f n ∷ []), e, ap f last)
    | no before ↦ ground (
      arith,
      any-append (λ k. k == y) (tabulate f n) (f n ∷ []),
      seen_in n i y (omega (arith, before)) e,
    )
  ]

  not_seen :
      (n : ℕ) (y : ℕ) → ((i : ℕ) → i < n → f i ≢ y) → any (λ k. k == y) (tabulate f n) ≡ false
  not_seen zero y h = refl
  not_seen (suc n) y h = ground (
    arith,
    any-append (λ k. k == y) (tabulate f n) (f n ∷ []),
    not_seen n y (λ i b. h i (omega arith)),
    h n (omega arith),
  )

  pub fresh-tabulate : (n : ℕ) → fresh (λ k. false) (tabulate f n) ≡ min n m
  fresh-tabulate zero = ground arith
  fresh-tabulate (suc n) = elim (dec_le m n) [
    | yes repeats ↦
        let (i, below, e) = again n repeats in
        ground (
          arith,
          fresh-append (λ k. false) (tabulate f n) (f n),
          fresh-tabulate n,
          seen_in n i (f n) below e,
        )
    | no new ↦ ground (
      arith,
      fresh-append (λ k. false) (tabulate f n) (f n),
      fresh-tabulate n,
      not_seen n (f n) (λ i b. apart i n b (omega arith)),
    )
  ]
