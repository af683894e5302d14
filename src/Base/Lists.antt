-- ===== src/Base/Lists.antt =====
-- Lists measured and indexed by native numbers, and the Boolean searches of slices.
use Prim.Native.Nat.{ℕ, zero, suc, ◌+◌, ◌-◌, ◌≤◌, ◌<◌, min}
use mathlib.Core.Path.{◌≡◌, refl, ap, ◌∙◌}
use mathlib.Core.Bool.{Bool, true, false, ◌||◌}
use mathlib.Core.List.{List, [], ◌∷◌, ◌++◌, map}
use mathlib.Core.Option.{Option, none, some}
use native.Mathlib.Omega.{arith}
use o_sfu_benchmarks.Base.Tests.{if◌then◌else◌, eqb}

module _ {ℓ} {A : Type ℓ} where
  abbrev pub length : List A → ℕ
  length [] = 0
  length (x ∷ xs) = suc (length xs)

  abbrev pub get_elem? : List A → ℕ → Option A
  get_elem? [] i = none
  get_elem? (x ∷ xs) zero = some x
  get_elem? (x ∷ xs) (suc i) = get_elem? xs i

  abbrev pub get_or : List A → ℕ → A → A
  get_or [] i d = d
  get_or (x ∷ xs) zero d = x
  get_or (x ∷ xs) (suc i) d = get_or xs i d

  abbrev pub set : List A → ℕ → A → List A
  set [] i v = []
  set (x ∷ xs) zero v = v ∷ xs
  set (x ∷ xs) (suc i) v = x ∷ set xs i v

  abbrev pub take : ℕ → List A → List A
  take zero xs = []
  take (suc n) [] = []
  take (suc n) (x ∷ xs) = x ∷ take n xs

  abbrev pub drop : ℕ → List A → List A
  drop zero xs = xs
  drop (suc n) [] = []
  drop (suc n) (x ∷ xs) = drop n xs

  abbrev pub replicate : ℕ → A → List A
  replicate zero a = []
  replicate (suc n) a = a ∷ replicate n a

  -- `iter().any(p)`
  abbrev pub any : (A → Bool) → List A → Bool
  any p [] = false
  any p (x ∷ xs) = p x || any p xs

  -- `retain(p)` and `iter().filter(p)`
  abbrev pub retain : (A → Bool) → List A → List A
  retain p [] = []
  retain p (x ∷ xs) = let rest = retain p xs in if p x then x ∷ rest else rest

  -- Every element has the property.
  abbrev pub All {κ} : (A → Type κ) → List A → Type κ
  All P [] = Unit
  All P (x ∷ xs) = P x × All P xs

  abbrev pub is_empty : List A → Bool
  is_empty [] = true
  is_empty (x ∷ xs) = false

  -- `(0..n).map(f)`, as the loops that push one element for each index build it
  abbrev pub tabulate : (ℕ → A) → ℕ → List A
  tabulate f zero = []
  tabulate f (suc n) = tabulate f n ++ f n ∷ []

  pub length-append : (xs ys : List A) → length (xs ++ ys) ≡ length xs + length ys
  length-append [] ys = omega arith
  length-append (x ∷ xs) ys = omega (arith, length-append xs ys)

  pub length-take : (n : ℕ) (xs : List A) → length (take n xs) ≡ min n (length xs)
  length-take zero xs = omega arith
  length-take (suc n) [] = omega arith
  length-take (suc n) (x ∷ xs) = omega (arith, length-take n xs)

  pub length-drop : (n : ℕ) (xs : List A) → length (drop n xs) ≡ length xs - n
  length-drop zero xs = omega arith
  length-drop (suc n) [] = omega arith
  length-drop (suc n) (x ∷ xs) = omega (arith, length-drop n xs)

  pub take-take : (m n : ℕ) (xs : List A) → m ≤ n → take m (take n xs) ≡ take m xs
  take-take zero n xs h = refl
  take-take (suc m) zero xs h = absurd (omega arith)
  take-take (suc m) (suc n) [] h = refl
  take-take (suc m) (suc n) (x ∷ xs) h = ap (◌∷◌ x) (take-take m n xs (omega arith))

  pub take_all : (n : ℕ) (xs : List A) → length xs ≤ n → take n xs ≡ xs
  take_all zero [] h = refl
  take_all zero (x ∷ xs) h = absurd (omega arith)
  take_all (suc n) [] h = refl
  take_all (suc n) (x ∷ xs) h = ap (◌∷◌ x) (take_all n xs (omega arith))

  pub take_of_append : (n : ℕ) (xs ys : List A) → n ≤ length xs → take n (xs ++ ys) ≡ take n xs
  take_of_append zero xs ys h = refl
  take_of_append (suc n) [] ys h = absurd (omega arith)
  take_of_append (suc n) (x ∷ xs) ys h = ap (◌∷◌ x) (take_of_append n xs ys (omega arith))

  pub drop-drop : (m n k : ℕ) (xs : List A) → m + n ≡ k → drop m (drop n xs) ≡ drop k xs
  drop-drop m zero k xs e = ap (λ i. drop i xs) (omega (arith, e))
  drop-drop m (suc n) zero xs e = absurd (omega arith)
  drop-drop zero (suc n) (suc k) [] e = refl
  drop-drop (suc m) (suc n) (suc k) [] e = refl
  drop-drop m (suc n) (suc k) (x ∷ xs) e = drop-drop m n k xs (omega arith)

  pub get_elem?_in_range :
      (xs : List A) (i : ℕ) → i < length xs → (x : A) × (get_elem? xs i ≡ some x)
  get_elem?_in_range [] i h = absurd (omega arith)
  get_elem?_in_range (x ∷ xs) zero h = (x, refl)
  get_elem?_in_range (x ∷ xs) (suc i) h = get_elem?_in_range xs i (omega arith)

  pub length-set : (xs : List A) (i : ℕ) (v : A) → length (set xs i v) ≡ length xs
  length-set [] i v = refl
  length-set (x ∷ xs) zero v = refl
  length-set (x ∷ xs) (suc i) v = ap suc (length-set xs i v)

  -- Filling the next slot of an array extends its used part.
  pub take-set :
      (xs : List A) (i : ℕ) (v : A)
      → i < length xs
      → take (suc i) (set xs i v) ≡ take i xs ++ v ∷ []
  take-set [] i v h = absurd (omega arith)
  take-set (x ∷ xs) zero v h = refl
  take-set (x ∷ xs) (suc i) v h = ap (◌∷◌ x) (take-set xs i v (omega arith))

  pub take-append_add :
      (g ts : List A) (n k : ℕ) → length g + n ≡ k → take k (g ++ ts) ≡ g ++ take n ts
  take-append_add [] ts n k e = ap (λ i. take i ts) (omega (arith, e))
  take-append_add (x ∷ g) ts n zero e = absurd (omega arith)
  take-append_add (x ∷ g) ts n (suc k) e = ap (◌∷◌ x) (take-append_add g ts n k (omega arith))

  pub any-append : (p : A → Bool) (xs ys : List A) → any p (xs ++ ys) ≡ (any p xs || any p ys)
  any-append p [] ys = refl
  any-append p (x ∷ xs) ys = ground (arith, any-append p xs ys)

module _ {ℓ} {A : Type ℓ} where
  pub length-tabulate : (f : ℕ → A) (n : ℕ) → length (tabulate f n) ≡ n
  length-tabulate f zero = refl
  length-tabulate f (suc n) =
      omega (arith, length-tabulate f n, length-append (tabulate f n) (f n ∷ []))

  pub length-map {κ} : {B : Type κ} (g : A → B) (xs : List A) → length (map g xs) ≡ length xs
  length-map g [] = refl
  length-map g (x ∷ xs) = ap suc (length-map g xs)

  pub get_elem?-map {κ} :
      {B : Type κ} (g : A → B) (xs : List A) (i : ℕ) {x : A}
      → get_elem? xs i ≡ some x
      → get_elem? (map g xs) i ≡ some (g x)
  get_elem?-map g [] i h = absurd cc
  get_elem?-map g (x ∷ xs) zero h = cc
  get_elem?-map g (x ∷ xs) (suc i) h = get_elem?-map g xs i h

  pub map-append {κ} :
      {B : Type κ} (g : A → B) (xs ys : List A) → map g (xs ++ ys) ≡ map g xs ++ map g ys
  map-append g [] ys = refl
  map-append g (x ∷ xs) ys = ap (λ zs. g x ∷ zs) (map-append g xs ys)

  pub map-tabulate {κ} :
      {B : Type κ} (g : A → B) (f : ℕ → A) (n : ℕ)
      → map g (tabulate f n) ≡ tabulate (λ i. g (f i)) n
  map-tabulate g f zero = refl
  map-tabulate g f (suc n) =
      map-append g (tabulate f n) (f n ∷ []) ∙ ap (λ zs. zs ++ g (f n) ∷ []) (map-tabulate g f n)

  pub All-append {κ} : (P : A → Type κ) (xs ys : List A) → All P xs → All P ys → All P (xs ++ ys)
  All-append P [] ys p q = q
  All-append P (x ∷ xs) ys p q = (p.0, All-append P xs ys p.1 q)

  pub All-tabulate {κ} :
      (P : A → Type κ) (f : ℕ → A) → ((i : ℕ) → P (f i)) → (n : ℕ) → All P (tabulate f n)
  All-tabulate P f h zero = tt
  All-tabulate P f h (suc n) =
      All-append P (tabulate f n) (f n ∷ []) (All-tabulate P f h n) (h n, tt)

module _ {ℓ} {A : Type ℓ} (dec : Discrete A) where
  -- `contains(&x)`
  unfoldable pub contains : A → List A → Bool
  contains x = any (eqb dec x)

  pub contains-push :
      (x y : A) (xs : List A) → contains x (xs ++ y ∷ []) ≡ (contains x xs || eqb dec x y)
  unfolding contains
  contains-push x y [] = ground arith
  contains-push x y (z ∷ xs) = ground (arith, contains-push x y xs)

  pub contains_nil : (x : A) → contains x [] ≡ false
  unfolding contains
  contains_nil x = refl

  pub contains-cons : (x y : A) (xs : List A) → contains x (y ∷ xs) ≡ (eqb dec x y || contains x xs)
  unfolding contains
  contains-cons x y xs = refl

  pub contains_of_empty : (x : A) (xs : List A) → is_empty xs ≡ true → contains x xs ≡ false
  contains_of_empty x [] h = contains_nil x
  contains_of_empty x (y ∷ xs) h = cc

  -- What `retain(|y| y != x)` leaves.
  unfoldable pub retain_ne : A → List A → List A
  retain_ne x = retain (λ y. if eqb dec y x then false else true)

  pub contains-retain_ne :
      (x y : A) (xs : List A)
      → contains y (retain_ne x xs) ≡ (if eqb dec y x then false else contains y xs)
  unfolding contains retain_ne
  contains-retain_ne x y [] = ground arith
  contains-retain_ne x y (z ∷ xs) = ground (arith, contains-retain_ne x y xs)
