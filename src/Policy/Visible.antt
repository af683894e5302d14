-- ===== src/Policy/Visible.antt =====
-- The counts of visible routes of src/source_policy_refresh.rs, receiver by receiver.
use o_sfu_benchmarks.Base.{
  ℕ, ◌+◌, ◌&&◌, ◌<◌, Bool, false, Option, none, some, List, [], ◌∷◌, ◌≡◌, refl, arith, inl, inr,
  length, get_elem?, get_elem?_in_range, All, if◌then◌else◌, Bool-cases, Option-cases, eqb, eqb_iff,
  ℕ_discrete,
}
use o_sfu_benchmarks.Base.Map.{Map, get, get-insert}
use o_sfu_benchmarks.ColdPath.Checksum.{unwrap_or}
use o_sfu_benchmarks.Policy.Defs.{Source, Route, number_key, count_entry, visible_rounds}

-- An active route of this receiver to an active source.
abbrev is_seen : ℕ → Route → Option Source → Bool
is_seen consumer route none = false
is_seen consumer route (some source) =
    (route.active && source.active) && eqb ℕ_discrete consumer route.consumer

-- How many there are.
unfoldable pub seen : List Source → ℕ → List Route → ℕ
seen sources consumer [] = 0
seen sources consumer (route ∷ routes) =
    (if is_seen consumer route (get_elem? sources route.source) then 1 else 0)
    + seen sources consumer routes

get-count_entry :
    (counts : Map ℕ ℕ) (k consumer : ℕ)
    → unwrap_or (get number_key consumer (count_entry counts k)) 0
      ≡ unwrap_or (get number_key consumer counts) 0 + (if eqb ℕ_discrete consumer k then 1 else 0)
unfolding count_entry
get-count_entry counts k consumer = elim (Bool-cases (eqb ℕ_discrete consumer k)) [
  | inl same ↦
      let names : consumer ≡ k = (eqb_iff ℕ_discrete consumer k).0 same in
      rw (get-insert number_key k consumer _ counts, same, names)
        (elim (Option-cases (get number_key k counts)) [
          | inl new ↦ rw new refl
          | inr (n, old) ↦ rw old refl
        ])
  | inr other ↦ rw (get-insert number_key k consumer _ counts, other) (omega arith)
]

-- Every receiver's count is that of its visible routes.
pub visible_lem :
    (sources : List Source) (counts : Map ℕ ℕ) (routes : List Route)
    → All (λ r. r.source < length sources) routes
    → (visible : Map ℕ ℕ) × (visible_rounds sources counts routes ≡ some visible)
      × ((consumer : ℕ)
          → unwrap_or (get number_key consumer visible) 0
            ≡ unwrap_or (get number_key consumer counts) 0 + seen sources consumer routes)
unfolding visible_rounds seen
visible_lem sources counts [] u = (counts, refl, λ consumer. omega arith)
visible_lem sources counts (r ∷ routes) u =
    let (s, at) = get_elem?_in_range sources r.source u.0 in
    elim (Bool-cases (r.active && s.active)) [
      | inl on ↦
          let (visible, e, each) = visible_lem sources (count_entry counts r.consumer) routes u.1 in
          (
            visible,
            rw (at, on) e,
            λ consumer.
                rw (at, on)
                  (omega (arith, each consumer, get-count_entry counts r.consumer consumer)),
          )
      | inr off ↦
          let (visible, e, each) = visible_lem sources counts routes u.1 in
          (visible, rw (at, off) e, λ consumer. rw (at, off) (omega (arith, each consumer)))
    ]
