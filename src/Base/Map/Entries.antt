-- ===== src/Base/Map/Entries.antt =====
-- Properties and numbers of all entries of a map, and changes to all its values.
use mathlib.Core.Path.{◌≡◌, refl, sym, ap, subst}
use Prim.Native.Nat.{ℕ, ◌+◌}
use mathlib.Core.List.{[], ◌∷◌, map}
use mathlib.Core.Option.{none, some}
use native.Mathlib.Omega.{arith}
use mathlib.Core.Logic.{inl, inr}
use o_sfu_benchmarks.Base.Tests.{eqb_iff, eqb, Bool-cases, Option-cases}
use o_sfu_benchmarks.Base.Lists.{All}
use o_sfu_benchmarks.Base.Map.{
  Key, Map, get, insert, overwrite, place, insert-place, insert-overwrite,
}

-- The sum of a number for each value.
abbrev pub total : {K V : Type 0} → (V → ℕ) → Map K V → ℕ
total w [] = 0
total w ((j, v) ∷ m) = w v + total w m

module _ {K V : Type 0} (key : Key K) where
  total-place :
      (w : V → ℕ) (k : K) (v : V) (m : Map K V) → total w (place key k v m) ≡ total w m + w v
  unfolding place
  total-place w k v [] = omega arith
  total-place w k v ((j, u) ∷ m) = ground (arith, total-place w k v m)

  total-overwrite :
      (w : V → ℕ) (k : K) (v : V) (m : Map K V) {old : V}
      → get key k m ≡ some old
      → total w (overwrite key k v m) + w old ≡ total w m + w v
  unfolding get overwrite
  total-overwrite w k v [] h = absurd cc
  total-overwrite w k v ((j, u) ∷ m) {old} h = elim (Bool-cases (eqb key.dec k j)) [
    | inl e ↦ let same : u ≡ old = ground (arith, h, e) in ground (arith, e, ap w same)
    | inr e ↦
        let rest : get key k m ≡ some old = ground (arith, h, e) in
        ground (arith, e, total-overwrite w k v m rest)
  ]

  pub total-insert_of_new :
      (w : V → ℕ) (k : K) (v : V) (m : Map K V)
      → get key k m ≡ none
      → total w (insert key k v m) ≡ total w m + w v
  total-insert_of_new w k v m h = rw (insert-place key k v m h) (total-place w k v m)

  pub total-insert_of_old :
      (w : V → ℕ) (k : K) (v : V) (m : Map K V) {old : V}
      → get key k m ≡ some old
      → total w (insert key k v m) + w old ≡ total w m + w v
  total-insert_of_old w k v m h = rw (insert-overwrite key k v m h) (total-overwrite w k v m h)

  All-place :
      (P : K × V → Type 0) (k : K) (v : V) (m : Map K V)
      → P (k, v)
      → All P m
      → All P (place key k v m)
  unfolding place
  All-place P k v [] p u = (p, tt)
  All-place P k v ((j, w) ∷ m) p u = elim (Bool-cases (key.before k j)) [
    | inl h ↦ rw h (p, u)
    | inr h ↦ rw h (u.0, All-place P k v m p u.1)
  ]

  All-overwrite :
      (P : K × V → Type 0) (k : K) (v : V) (m : Map K V)
      → P (k, v)
      → All P m
      → All P (overwrite key k v m)
  unfolding overwrite
  All-overwrite P k v [] p u = tt
  All-overwrite P k v ((j, w) ∷ m) p u = elim (Bool-cases (eqb key.dec k j)) [
    | inl h ↦ rw h (p, u.1)
    | inr h ↦ rw h (u.0, All-overwrite P k v m p u.1)
  ]

  -- Every entry has the property, also the one that is put in.
  pub All-insert :
      (P : K × V → Type 0) (k : K) (v : V) (m : Map K V)
      → P (k, v)
      → All P m
      → All P (insert key k v m)
  All-insert P k v m p u = elim (Option-cases (get key k m)) [
    | inl new ↦ rw (insert-place key k v m new) (All-place P k v m p u)
    | inr (w, old) ↦ rw (insert-overwrite key k v m old) (All-overwrite P k v m p u)
  ]

  pub All-get :
      (P : K × V → Type 0) (k : K) (m : Map K V) {v : V} → All P m → get key k m ≡ some v → P (k, v)
  unfolding get
  All-get P k [] u h = absurd cc
  All-get P k ((j, w) ∷ m) {v} u h = elim (Bool-cases (eqb key.dec k j)) [
    | inl e ↦
        let same : k ≡ j = (eqb_iff key.dec k j).0 e in
        let value : w ≡ v = ground (arith, h, e) in
        subst (λ x. P (x, v)) (sym same) (subst (λ x. P (j, x)) value u.0)
    | inr e ↦ let rest : get key k m ≡ some v = ground (arith, h, e) in All-get P k m u.1 rest
  ]

-- The values changed by a function, under the same keys in the same order.
abbrev pub map_values : {K V W : Type 0} → (V → W) → Map K V → Map K W
map_values h = map (λ e. (e.0, h e.1))

module _ {K V W : Type 0} (key : Key K) (h : V → W) where
  pub get-map_values :
      (k : K) (m : Map K V)
      → get key k (map_values h m) ≡ elim (get key k m) [ none ↦ none | some v ↦ some (h v) ]
  unfolding get
  get-map_values k [] = refl
  get-map_values k ((j, w) ∷ m) = ground (arith, get-map_values k m)

  overwrite-map_values :
      (k : K) (v : V) (m : Map K V)
      → overwrite key k (h v) (map_values h m) ≡ map_values h (overwrite key k v m)
  unfolding overwrite
  overwrite-map_values k v [] = refl
  overwrite-map_values k v ((j, w) ∷ m) = ground (arith, overwrite-map_values k v m)

  place-map_values :
      (k : K) (v : V) (m : Map K V)
      → place key k (h v) (map_values h m) ≡ map_values h (place key k v m)
  unfolding place
  place-map_values k v [] = refl
  place-map_values k v ((j, w) ∷ m) = ground (arith, place-map_values k v m)

  pub insert-map_values :
      (k : K) (v : V) (m : Map K V)
      → insert key k (h v) (map_values h m) ≡ map_values h (insert key k v m)
  insert-map_values k v m = elim (Option-cases (get key k m)) [
    | inl new ↦
        rw
          (
            insert-place key k v m new,
            insert-place key k (h v) (map_values h m) (rw (get-map_values k m, new) refl),
          )
          (place-map_values k v m)
    | inr (w, old) ↦
        rw
          (
            insert-overwrite key k v m old,
            insert-overwrite key k (h v) (map_values h m) {w = h w}
                (rw (get-map_values k m, old) refl),
          )
          (overwrite-map_values k v m)
  ]
