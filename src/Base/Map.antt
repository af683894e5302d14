-- ===== src/Base/Map.antt =====
-- `BTreeMap` and `HashMap` as association lists in iteration order. `before` is the order of the
-- keys, where a new entry goes: any relation, since the order of a `HashMap` is hidden.
pub mod Entries
use mathlib.Core.Path.{◌≡◌, refl, sym, ap, subst}
use Prim.Native.Nat.{ℕ, suc, ◌+◌}
use mathlib.Core.Bool.{Bool, true, false}
use mathlib.Core.List.{List, [], ◌∷◌, map}
use mathlib.Core.Option.{Option, none, some}
use native.Mathlib.Omega.{arith}
use mathlib.Core.Logic.{inl, inr, ◌≢◌}
use o_sfu_benchmarks.Base.Tests.{eqb_self, eqb_iff, if◌then◌else◌, eqb, Bool-cases, Option-cases}
use o_sfu_benchmarks.Base.Lists.{any, length, All}

-- What the two maps use of a key type.
pub record Key (K : Type 0) : Type 0 where
  pub dec : Discrete K
  pub before : K → K → Bool

abbrev pub Map : Type 0 → Type 0 → Type 0
Map K V = List (K × V)

abbrev pub keys : {K V : Type 0} → Map K V → List K
keys = map (λ e. e.0)

module _ {K V : Type 0} (key : Key K) where
  -- `get`
  unfoldable pub get : K → Map K V → Option V
  get k [] = none
  get k ((j, v) ∷ m) = if eqb key.dec k j then some v else get k m

  -- `insert`: an old entry is overwritten in place, a new one goes before the first greater key.
  pub overwrite : K → V → Map K V → Map K V
  overwrite k v [] = []
  overwrite k v ((j, w) ∷ m) =
      let rest = overwrite k v m in if eqb key.dec k j then (k, v) ∷ m else (j, w) ∷ rest

  pub place : K → V → Map K V → Map K V
  place k v [] = (k, v) ∷ []
  place k v ((j, w) ∷ m) =
      let rest = place k v m in if key.before k j then (k, v) ∷ (j, w) ∷ m else (j, w) ∷ rest

  insert_at : Option V → K → V → Map K V → Map K V
  insert_at none k v m = place k v m
  insert_at (some _) k v m = overwrite k v m

  unfoldable pub insert : K → V → Map K V → Map K V
  unfolding overwrite place insert_at
  insert k v m = insert_at (get k m) k v m

  -- `remove`
  unfoldable pub remove : K → Map K V → Map K V
  remove k [] = []
  remove k ((j, w) ∷ m) = let rest = remove k m in if eqb key.dec k j then rest else (j, w) ∷ rest

  get-overwrite :
      (k q : K) (v : V) (m : Map K V)
      → get k m ≢ none
      → get q (overwrite k v m) ≡ (if eqb key.dec q k then some v else get q m)
  unfolding get overwrite
  get-overwrite k q v [] h = absurd (h refl)
  get-overwrite k q v ((j, w) ∷ m) h = ground (arith, get-overwrite k q v m)

  get-place :
      (k q : K) (v : V) (m : Map K V)
      → get k m ≡ none
      → get q (place k v m) ≡ (if eqb key.dec q k then some v else get q m)
  unfolding get place
  get-place k q v [] h = refl
  get-place k q v ((j, w) ∷ m) h = ground (arith, get-place k q v m)

  pub insert-place : (k : K) (v : V) (m : Map K V) → get k m ≡ none → insert k v m ≡ place k v m
  unfolding insert_at insert
  insert-place k v m h = rw h

  pub insert-overwrite :
      (k : K) (v : V) (m : Map K V) {w : V} → get k m ≡ some w → insert k v m ≡ overwrite k v m
  unfolding insert_at insert
  insert-overwrite k v m h = rw h

  pub get-insert :
      (k q : K) (v : V) (m : Map K V)
      → get q (insert k v m) ≡ (if eqb key.dec q k then some v else get q m)
  get-insert k q v m = elim (Option-cases (get k m)) [
    | inl new ↦ rw (insert-place k v m new) (get-place k q v m new)
    | inr (w, old) ↦ rw (insert-overwrite k v m old) (get-overwrite k q v m (λ e. cc))
  ]

  length-overwrite : (k : K) (v : V) (m : Map K V) → length (overwrite k v m) ≡ length m
  unfolding overwrite
  length-overwrite k v [] = refl
  length-overwrite k v ((j, w) ∷ m) = ground (arith, length-overwrite k v m)

  length-place : (k : K) (v : V) (m : Map K V) → length (place k v m) ≡ suc (length m)
  unfolding place
  length-place k v [] = refl
  length-place k v ((j, w) ∷ m) = ground (arith, length-place k v m)

  -- `contains_key`
  abbrev pub has : K → Map K V → Bool
  has k m = elim (get k m) [ none ↦ false | some v ↦ true ]

  -- A new key makes the map longer.
  pub length-insert :
      (k : K) (v : V) (m : Map K V) → length (insert k v m) ≡ (if has k m then 0 else 1) + length m
  length-insert k v m = elim (Option-cases (get k m)) [
    | inl new ↦ rw (insert-place k v m new) (ground (arith, length-place k v m, new))
    | inr (w, old) ↦ rw (insert-overwrite k v m old) (ground (arith, length-overwrite k v m, old))
  ]

  pub get_nil : (q : K) → get q [] ≡ none
  unfolding get
  get_nil q = refl

  pub get-remove :
      (k q : K) (m : Map K V) → get q (remove k m) ≡ (if eqb key.dec q k then none else get q m)
  unfolding get remove
  get-remove k q [] = ground arith
  get-remove k q ((j, w) ∷ m) = ground (arith, get-remove k q m)

  pub get-remove_of_some :
      (k q : K) (m : Map K V) {v : V} → get q (remove k m) ≡ some v → (q ≢ k) × (get q m ≡ some v)
  get-remove_of_some k q m h = elim (key.dec q k) [
    | yes e ↦ absurd (ground (arith, get-remove k q m))
    | no u ↦ (u, ground (arith, get-remove k q m))
  ]

  pub get-remove_of_ne : (k q : K) (m : Map K V) → q ≢ k → get q (remove k m) ≡ get q m
  get-remove_of_ne k q m u = ground (arith, get-remove k q m)

  pub get-insert_of_ne : (k q : K) (v : V) (m : Map K V) → q ≢ k → get q (insert k v m) ≡ get q m
  get-insert_of_ne k q v m u = ground (arith, get-insert k q v m)

  pub get-insert_same : (k : K) (v : V) (m : Map K V) → get k (insert k v m) ≡ some v
  get-insert_same k v m = ground (arith, get-insert k k v m, eqb_self key.dec k)

  -- Each key has one entry.
  abbrev pub IsKeyed : Map K V → Type 0
  IsKeyed [] = Unit
  IsKeyed ((j, w) ∷ m) = (get j m ≡ none) × IsKeyed m

  overwrite-IsKeyed :
      (k : K) (v : V) (m : Map K V) → get k m ≢ none → IsKeyed m → IsKeyed (overwrite k v m)
  unfolding get overwrite
  overwrite-IsKeyed k v [] h u = tt
  overwrite-IsKeyed k v ((j, w) ∷ m) h u =
      ground (arith, overwrite-IsKeyed k v m, get-overwrite k j v m)

  place-IsKeyed : (k : K) (v : V) (m : Map K V) → get k m ≡ none → IsKeyed m → IsKeyed (place k v m)
  unfolding get place
  place-IsKeyed k v [] h u = (refl, tt)
  place-IsKeyed k v ((j, w) ∷ m) h u = ground (arith, place-IsKeyed k v m, get-place k j v m)

  pub insert-IsKeyed : (k : K) (v : V) (m : Map K V) → IsKeyed m → IsKeyed (insert k v m)
  insert-IsKeyed k v m u = elim (Option-cases (get k m)) [
    | inl new ↦ rw (insert-place k v m new) (place-IsKeyed k v m new u)
    | inr (w, old) ↦ rw (insert-overwrite k v m old) (overwrite-IsKeyed k v m (λ e. cc) u)
  ]

  pub remove-IsKeyed : (k : K) (m : Map K V) → IsKeyed m → IsKeyed (remove k m)
  unfolding get remove
  remove-IsKeyed k [] h = tt
  remove-IsKeyed k ((j, w) ∷ m) h = ground (arith, remove-IsKeyed k m h.1, get-remove k j m)

  -- A search through the entries of a keyed map, seen through `get`.
  pub any_of_get :
      (p : K → V → Bool) (k : K) (v : V) (m : Map K V)
      → get k m ≡ some v
      → p k v ≡ true
      → any (λ e. p e.0 e.1) m ≡ true
  unfolding get
  any_of_get p k v [] g h = cc
  any_of_get p k v ((j, w) ∷ m) g h = ground (arith, any_of_get p k v m)

  pub get_of_any :
      (p : K → V → Bool) (m : Map K V)
      → IsKeyed m
      → any (λ e. p e.0 e.1) m ≡ true
      → (k : K) × (v : V) × (get k m ≡ some v) × (p k v ≡ true)
  unfolding get
  get_of_any p [] u h = cc
  get_of_any p ((j, w) ∷ m) u h = elim (Bool-cases (p j w)) [
    | inl here ↦ (j, w, ground arith, here)
    | inr there ↦ let (k, v, g, q) = get_of_any p m u.1 (ground arith) in (k, v, ground arith, q)
  ]
