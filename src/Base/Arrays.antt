-- ===== src/Base/Arrays.antt =====
-- `Vec::remove`, `Vec::swap_remove` and what stands at each position afterwards.
use Prim.Native.Nat.{ℕ, zero, suc, ◌+◌, ◌-◌, ◌≤◌, ◌<◌}
use mathlib.Core.Path.{◌≡◌, refl, ap}
use mathlib.Core.List.{List, [], ◌∷◌, ◌++◌}
use mathlib.Core.Option.{Option, none, some}
use mathlib.Core.Bool.{Bool, true, false}
use mathlib.Core.Logic.{◌≢◌, ◌⊎◌, inl, inr}
use native.Mathlib.Omega.{arith}
use native.Mathlib.Decide.{dec_lt, ℕ_discrete}
use o_sfu_benchmarks.Base.Tests.{ltb, ◌==◌, Bool-cases, Option-cases, if◌then◌else◌}
use o_sfu_benchmarks.Base.Lists.{
  length, get_elem?, set, drop, length-set, tabulate, length-tabulate,
}

module _ {ℓ} {A : Type ℓ} where
  -- `remove(position)`: nothing happens out of range, where the code panics.
  unfoldable pub remove_at : List A → ℕ → List A
  remove_at [] p = []
  remove_at (x ∷ xs) zero = xs
  remove_at (x ∷ xs) (suc p) = x ∷ remove_at xs p

  -- `pop()`, without its result
  unfoldable pub drop_last : List A → List A
  drop_last [] = []
  drop_last (x ∷ []) = []
  drop_last (x ∷ y ∷ xs) = x ∷ drop_last (y ∷ xs)

  -- `last()`
  unfoldable pub last : List A → Option A
  last [] = none
  last (x ∷ []) = some x
  last (x ∷ y ∷ xs) = last (y ∷ xs)

  -- `swap_remove(position)`: the last element takes the place.
  unfoldable pub swap_remove : List A → ℕ → List A
  unfolding drop_last last
  swap_remove xs p = elim (last xs) [ none ↦ [] | some x ↦ drop_last (set xs p x) ]

  -- `iter().position(..)`: the first match.
  unfoldable pub position : (A → Bool) → List A → Option ℕ
  position p [] = none
  position p (x ∷ xs) =
      let rest = position p xs in
      if p x then some 0 else elim rest [ none ↦ none | some i ↦ some (suc i) ]

  -- The position that is found matches, and where none is found nothing matches.
  pub position_of_some :
      (p : A → Bool) (xs : List A) (i : ℕ)
      → position p xs ≡ some i
      → (x : A) × (get_elem? xs i ≡ some x) × (p x ≡ true)
  unfolding position
  position_of_some p [] i h = absurd cc
  position_of_some p (x ∷ xs) zero h = elim (Bool-cases (p x)) [
    | inl yes_x ↦ (x, refl, yes_x)
    | inr no_x ↦ elim (Option-cases (position p xs)) [
      | inl e ↦ absurd (ground (arith, h, no_x, e))
      | inr (j, e) ↦ absurd (ground (arith, h, no_x, e))
    ]
  ]
  position_of_some p (x ∷ xs) (suc i) h = elim (Bool-cases (p x)) [
    | inl yes_x ↦ absurd (ground (arith, h, yes_x))
    | inr no_x ↦ elim (Option-cases (position p xs)) [
      | inl e ↦ absurd (ground (arith, h, no_x, e))
      | inr (j, e) ↦ position_of_some p xs i (ground (arith, h, no_x, e))
    ]
  ]

  pub position_of_none :
      (p : A → Bool) (xs : List A)
      → position p xs ≡ none
      → (i : ℕ) (x : A) → get_elem? xs i ≡ some x
      → p x ≡ false
  unfolding position
  position_of_none p [] h i y at = cc
  position_of_none p (x ∷ xs) h zero y at = elim (Bool-cases (p x)) [
    | inl yes_x ↦ absurd (ground (arith, h, yes_x))
    | inr no_x ↦ cc
  ]
  position_of_none p (x ∷ xs) h (suc i) y at = elim (Bool-cases (p x)) [
    | inl yes_x ↦ absurd (ground (arith, h, yes_x))
    | inr no_x ↦ elim (Option-cases (position p xs)) [
      | inl e ↦ position_of_none p xs e i y at
      | inr (j, e) ↦ absurd (ground (arith, h, no_x, e))
    ]
  ]

  pub get_elem?_range : (xs : List A) (q : ℕ) {x : A} → get_elem? xs q ≡ some x → q < length xs
  get_elem?_range [] q h = cc
  get_elem?_range (x ∷ xs) zero h = omega arith
  get_elem?_range (x ∷ xs) (suc q) h = omega (arith, get_elem?_range xs q h)

  pub get_elem?-push :
      (xs : List A) (x : A) (q : ℕ)
      → get_elem? (xs ++ x ∷ []) q ≡ (if q == length xs then some x else get_elem? xs q)
  get_elem?-push [] x zero = ground arith
  get_elem?-push [] x (suc q) = ground arith
  get_elem?-push (y ∷ xs) x zero = ground arith
  get_elem?-push (y ∷ xs) x (suc q) = ground (arith, get_elem?-push xs x q)

  pub get_elem?-tabulate :
      (f : ℕ → A) (n q : ℕ) {x : A} → get_elem? (tabulate f n) q ≡ some x → (q < n) × (x ≡ f q)
  get_elem?-tabulate f zero q h = absurd cc
  get_elem?-tabulate f (suc n) q {x} h = elim (Bool-cases (q == n)) [
    | inl here ↦ ground (arith, get_elem?-push (tabulate f n) (f n) q, length-tabulate f n)
    | inr other ↦
        let was : get_elem? (tabulate f n) q ≡ some x =
          ground (arith, get_elem?-push (tabulate f n) (f n) q, length-tabulate f n) in
        let (below, is) = get_elem?-tabulate f n q was in (omega arith, is)
  ]

  pub get_elem?-drop :
      (p : ℕ) (xs : List A) (j : ℕ) → get_elem? (drop p xs) j ≡ get_elem? xs (p + j)
  get_elem?-drop zero xs j = ap (get_elem? xs) (omega arith)
  get_elem?-drop (suc p) [] j = refl
  get_elem?-drop (suc p) (x ∷ xs) j = ground (arith, get_elem?-drop p xs j)

  pub get_elem?-set :
      (xs : List A) (i : ℕ) (v : A) (q : ℕ)
      → i < length xs
      → get_elem? (set xs i v) q ≡ (if q == i then some v else get_elem? xs q)
  get_elem?-set [] i v q h = absurd (omega arith)
  get_elem?-set (x ∷ xs) zero v zero h = ground arith
  get_elem?-set (x ∷ xs) zero v (suc q) h = ground arith
  get_elem?-set (x ∷ xs) (suc i) v zero h = ground arith
  get_elem?-set (x ∷ xs) (suc i) v (suc q) h = ground (arith, get_elem?-set xs i v q)

  pub get_elem?-remove_at :
      (xs : List A) (p q : ℕ)
      → get_elem? (remove_at xs p) q ≡ (if ltb q p then get_elem? xs q else get_elem? xs (suc q))
  unfolding remove_at
  get_elem?-remove_at [] p q = ground arith
  get_elem?-remove_at (x ∷ xs) zero q = ground arith
  get_elem?-remove_at (x ∷ xs) (suc p) zero = ground arith
  get_elem?-remove_at (x ∷ xs) (suc p) (suc q) = ground (arith, get_elem?-remove_at xs p q)

  pub length-remove_at :
      (xs : List A) (p : ℕ) → p < length xs → suc (length (remove_at xs p)) ≡ length xs
  unfolding remove_at
  length-remove_at [] p h = absurd (omega arith)
  length-remove_at (x ∷ xs) zero h = refl
  length-remove_at (x ∷ xs) (suc p) h = omega (arith, length-remove_at xs p)

  pub length-drop_last : (xs : List A) → length (drop_last xs) ≡ length xs - 1
  unfolding drop_last
  length-drop_last [] = omega arith
  length-drop_last (x ∷ []) = omega arith
  length-drop_last (x ∷ y ∷ xs) = omega (arith, length-drop_last (y ∷ xs))

  get_elem?-drop_last :
      (xs : List A) (q : ℕ)
      → get_elem? (drop_last xs) q ≡ (if ltb (suc q) (length xs) then get_elem? xs q else none)
  unfolding drop_last
  get_elem?-drop_last [] q = ground arith
  get_elem?-drop_last (x ∷ []) q = ground arith
  get_elem?-drop_last (x ∷ y ∷ xs) zero = ground arith
  get_elem?-drop_last (x ∷ y ∷ xs) (suc q) = ground (arith, get_elem?-drop_last (y ∷ xs) q)

  -- A list with a position has a last element, and it stands at the last position.
  pub last-get_elem? :
      (xs : List A) (p : ℕ)
      → p < length xs
      → (x : A) × (last xs ≡ some x) × (get_elem? xs (length xs - 1) ≡ some x)
  unfolding last
  last-get_elem? [] p h = absurd (omega arith)
  last-get_elem? (x ∷ []) p h = (x, refl, ground arith)
  last-get_elem? (x ∷ y ∷ xs) p h =
      let (z, e, at) = last-get_elem? (y ∷ xs) 0 (omega arith) in (z, e, ground (arith, at))

  swap_remove-eq :
      (xs : List A) (p : ℕ) {x : A} → last xs ≡ some x → swap_remove xs p ≡ drop_last (set xs p x)
  unfolding swap_remove
  swap_remove-eq xs p e = rw (swap_remove, e) refl

  pub get_elem?-swap_remove :
      (xs : List A) (p : ℕ) {x : A} (q : ℕ)
      → p < length xs
      → last xs ≡ some x
      → get_elem? (swap_remove xs p) q
        ≡ (if ltb (suc q) (length xs) then (if q == p then some x else get_elem? xs q) else none)
  get_elem?-swap_remove xs p {x} q h e = rw (swap_remove-eq xs p e) (
      ground (arith, get_elem?-drop_last (set xs p x) q, length-set xs p x, get_elem?-set xs p x q))

  pub length-swap_remove :
      (xs : List A) (p : ℕ) → p < length xs → suc (length (swap_remove xs p)) ≡ length xs
  length-swap_remove xs p h =
      let (x, e, at) = last-get_elem? xs p h in
      rw (swap_remove-eq xs p e) (omega (arith, length-drop_last (set xs p x), length-set xs p x))

  pub get_elem?-push_of_some :
      (xs : List A) (x : A) (q : ℕ) {y : A}
      → get_elem? xs q ≡ some y
      → get_elem? (xs ++ x ∷ []) q ≡ some y
  get_elem?-push_of_some xs x q h = ground (arith, get_elem?-push xs x q, get_elem?_range xs q h)

  -- Where the elements of a list go in a swap, and where those of the result come from.
  module _ (xs : List A) (p : ℕ) {l : A} (room : p < length xs) (is_last : last xs ≡ some l) where
    pub swap_remove_stays :
        (q : ℕ) {y : A}
        → get_elem? xs q ≡ some y
        → q ≢ p
        → q ≢ length xs - 1
        → get_elem? (swap_remove xs p) q ≡ some y
    swap_remove_stays q h u w =
        ground (arith, get_elem?-swap_remove xs p q room is_last, get_elem?_range xs q h)

    pub swap_remove_moved : suc p < length xs → get_elem? (swap_remove xs p) p ≡ some l
    swap_remove_moved h = ground (arith, get_elem?-swap_remove xs p p room is_last)

    pub swap_remove_end : length xs ≤ suc p → get_elem? (swap_remove xs p) p ≡ none
    swap_remove_end h = ground (arith, get_elem?-swap_remove xs p p room is_last)

    pub swap_remove_source :
        (q : ℕ) {y : A}
        → get_elem? (swap_remove xs p) q ≡ some y
        → (suc q < length xs) × (((q ≡ p) × (y ≡ l)) ⊎ ((q ≢ p) × (get_elem? xs q ≡ some y)))
    swap_remove_source q {y} h = elim (dec_lt (suc q) (length xs)) [
      | no out ↦ absurd (ground (arith, get_elem?-swap_remove xs p q room is_last))
      | yes inside ↦ elim (ℕ_discrete q p) [
        | yes e ↦ (inside, inl (e, ground (arith, get_elem?-swap_remove xs p q room is_last)))
        | no u ↦ (inside, inr (u, ground (arith, get_elem?-swap_remove xs p q room is_last)))
      ]
    ]

  -- Where an element stands in the list that it was removed from another position of.
  pub remove_at_source :
      (xs : List A) (p q : ℕ) {y : A}
      → get_elem? (remove_at xs p) q ≡ some y
      → ((q < p) × (get_elem? xs q ≡ some y)) ⊎ ((p ≤ q) × (get_elem? xs (suc q) ≡ some y))
  remove_at_source xs p q h = elim (dec_lt q p) [
    | yes before ↦ inl (before, ground (arith, get_elem?-remove_at xs p q))
    | no behind ↦ inr (omega arith, ground (arith, get_elem?-remove_at xs p q))
  ]

  pub remove_at_before :
      (xs : List A) (p q : ℕ) → q < p → get_elem? (remove_at xs p) q ≡ get_elem? xs q
  remove_at_before xs p q h = ground (arith, get_elem?-remove_at xs p q)

  pub remove_at_behind :
      (xs : List A) (p q : ℕ) → p ≤ q → get_elem? (remove_at xs p) q ≡ get_elem? xs (suc q)
  remove_at_behind xs p q h = ground (arith, get_elem?-remove_at xs p q)
