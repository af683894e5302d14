-- ===== src/Policy/Scores/Agreement.antt =====
-- `current_rebuild_cycle` and `cached_ladder_cycle` of src/source_policy_refresh.rs against each other.
use o_sfu_benchmarks.Base.{
  ℕ, suc, ◌+◌, ◌<◌, ◌||◌, not, some, List, [], ◌∷◌, ◌++◌, ◌≡◌, refl, sym, ap, ◌∙◌, arith, inl, inr,
  map, map-append, length, length-map, length-append, get_elem?, get_elem?_in_range, get_elem?-map,
  is_empty, All, All-append, min, u64_max, Bool-cases, Option-cases,
}
use o_sfu_benchmarks.Base.Map.{Map, get, get_nil, IsKeyed}
use o_sfu_benchmarks.Base.Map.Entries.{
  total, total-insert_of_new, total-insert_of_old, All-insert, All-get,
}
use o_sfu_benchmarks.Policy.Defs.{
  Source, Route, RouteInput, PolicyFixture, number_key, selectable_encoding_ladder, group_push,
  receiver_bandwidth_by_user, visible_scalable_route_counts,
}
use o_sfu_benchmarks.Policy.Cycles.{
  input_of, add_selected, even_sources, planned_route, plan_current_routes, group_inputs,
  current_rebuild_cycle, cached_ladder_cycle,
}
use o_sfu_benchmarks.Policy.Chosen.{
  IsConsistent, chosen, group_pairs, build_inputs-chosen, group_inputs-pairs, group_routes-pairs,
}
use o_sfu_benchmarks.ColdPath.Checksum.{unwrap_or}
use o_sfu_benchmarks.Policy.Visible.{seen, visible_lem}
use o_sfu_benchmarks.Policy.Budget.{over_count, own, if_any, group_inputs_lem, group_inputs-IsKeyed}
use o_sfu_benchmarks.Policy.Scores.{Pairs, inputs, IsPlanned, IsGroup, size, even_size, plan_lem}

even_sources-append :
    (xs ys : List RouteInput) → even_sources (xs ++ ys) ≡ even_sources xs + even_sources ys
even_sources-append [] ys = omega arith
even_sources-append (x ∷ xs) ys = omega (arith, even_sources-append xs ys)

-- Pushing onto a group adds what a group of one is worth.
total-group_push :
    {A : Type 0} (w : List A → ℕ) (k : ℕ) (x : A) (groups : Map ℕ (List A))
    → ((xs : List A) → w (xs ++ x ∷ []) ≡ w xs + w (x ∷ []))
    → total w (group_push k x groups) ≡ total w groups + w (x ∷ [])
unfolding group_push
total-group_push w k x groups adds = elim (Option-cases (get number_key k groups)) [
  | inl e ↦ rw e (total-insert_of_new number_key w k (x ∷ []) groups e)
  | inr (xs, e) ↦
      rw e (omega (arith, total-insert_of_old number_key w k (xs ++ x ∷ []) groups e, adds xs))
]

module _ (f : PolicyFixture) (bandwidth visible : Map ℕ ℕ) where
  group_push-IsGroup :
      (k : ℕ) (p : ℕ × RouteInput) (groups : Map ℕ Pairs)
      → IsPlanned f bandwidth visible k p
      → All (IsGroup f bandwidth visible) groups
      → All (IsGroup f bandwidth visible) (group_push k p groups)
  unfolding group_push
  group_push-IsGroup k p groups v u = elim (Option-cases (get number_key k groups)) [
    | inl e ↦ rw e (
        All-insert number_key (IsGroup f bandwidth visible) k (p ∷ []) groups ((v, tt), omega arith)
          u)
    | inr (ps, e) ↦
        let old = All-get number_key (IsGroup f bandwidth visible) k groups u e in
        rw e (
          All-insert number_key (IsGroup f bandwidth visible) k (ps ++ p ∷ []) groups
            (
              All-append (IsPlanned f bandwidth visible k) ps (p ∷ []) old.0 (v, tt),
              omega (arith, length-append ps (p ∷ [])),
            )
            u)
  ]

  -- The groups of the planned routes.
  group_pairs_lem :
      (groups : Map ℕ Pairs) (ps : Pairs)
      → All (λ p. IsPlanned f bandwidth visible p.1.consumer p) ps
      → All (IsGroup f bandwidth visible) groups
      → All (IsGroup f bandwidth visible) (group_pairs f bandwidth visible groups ps)
        × (size f bandwidth visible (group_pairs f bandwidth visible groups ps)
            ≡ size f bandwidth visible groups + length ps)
        × (even_size f bandwidth visible (group_pairs f bandwidth visible groups ps)
            ≡ even_size f bandwidth visible groups + even_sources (inputs ps))
  group_pairs_lem groups [] v u = (u, omega arith, omega arith)
  group_pairs_lem groups (p ∷ ps) v u =
      let k = p.1.consumer in
      let (all, sized, even) =
        group_pairs_lem (group_push k p groups) ps v.1 (group_push-IsGroup k p groups v.0 u) in
      let one = total-group_push length k p groups (λ xs. length-append xs (p ∷ [])) in
      let one_even =
        total-group_push (λ qs. even_sources (inputs qs)) k p groups
          (λ xs.
            ap even_sources (map-append (λ q. q.1) xs (p ∷ []))
            ∙ even_sources-append (inputs xs) (inputs (p ∷ []))) in
      (all, omega (arith, sized, one), omega (arith, even, one_even))

  planned_lem :
      (i : ℕ) (r : Route) (s : Source)
      → f.cached_ladders ≡ map selectable_encoding_ladder f.sources
      → get_elem? f.routes i ≡ some r
      → get_elem? f.sources r.source ≡ some s
      → IsPlanned f bandwidth visible r.consumer
          (i, input_of f bandwidth visible s (selectable_encoding_ladder s) r)
  unfolding planned_route add_selected
  planned_lem i r s cached here there =
      let ladder : get_elem? f.cached_ladders r.source ≡ some (selectable_encoding_ladder s) =
        ap (λ l. get_elem? l r.source) cached
        ∙ get_elem?-map selectable_encoding_ladder f.sources r.source there in
      record { looked_up = λ selected. rw (planned_route, here, there, ladder) refl; budget = refl }

  chosen-IsPlanned :
      (i : ℕ) (rs : List Route)
      → f.cached_ladders ≡ map selectable_encoding_ladder f.sources
      → All (λ r. r.source < length f.sources) rs
      → ((j : ℕ) → get_elem? rs j ≡ get_elem? f.routes (i + j))
      → All (λ p. IsPlanned f bandwidth visible p.1.consumer p) (chosen f bandwidth visible i rs)
  unfolding chosen
  chosen-IsPlanned i [] cached u there = tt
  chosen-IsPlanned i (r ∷ rs) cached u there =
      let (s, at) = get_elem?_in_range f.sources r.source u.0 in
      let rest =
        chosen-IsPlanned (suc i) rs cached u.1
          (λ j. there (suc j) ∙ ap (get_elem? f.routes) (omega arith)) in
      let here : get_elem? f.routes i ≡ some r =
        ap (get_elem? f.routes) (omega arith) ∙ sym (there 0) in
      elim (Bool-cases (not r.active || not s.active)) [
        | inl off ↦ rw (chosen, at, off) rest
        | inr on ↦ elim (Bool-cases (is_empty (selectable_encoding_ladder s))) [
          | inl e ↦ rw (chosen, at, on, e) rest
          | inr e ↦ rw (chosen, at, on, e) (planned_lem i r s cached here at, rest)
        ]
      ]

-- On a consistent fixture neither cycle panics. A receiver's visible routes are its active ones to
-- active sources. The planned routes fall into one group for each receiver that has any. The cycle
-- with cached ladders returns one for each planned route and one for each receiver whose routes
-- together get more than its bandwidth: the last step of the ladder for a featured source, else
-- the first step for a receiver of more than nine visible routes, else the step the route has, the
-- last at most. The rebuilding cycle returns as much, and one more for each planned route to a
-- source with an even number. Both stop at the greatest `usize`.
pub policy_cycles_lem :
    (f : PolicyFixture)
    → IsConsistent f
    → (visible : Map ℕ ℕ) × (planned : List RouteInput) × (groups : Map ℕ (List RouteInput))
      × (visible_scalable_route_counts f ≡ some visible)
      × ((consumer : ℕ)
          → unwrap_or (get number_key consumer visible) 0 ≡ seen f.sources consumer f.routes)
      × (planned ≡ inputs (chosen f (receiver_bandwidth_by_user f) visible 0 f.routes))
      × IsKeyed number_key groups
      × ((consumer : ℕ) → get number_key consumer groups ≡ if_any (own consumer planned))
      × (cached_ladder_cycle f
          ≡ some (min (length planned + over_count (receiver_bandwidth_by_user f) groups) u64_max))
      × (current_rebuild_cycle f
          ≡ some (
              min
                (length planned
                  + over_count (receiver_bandwidth_by_user f) groups
                  + even_sources planned)
                u64_max))
unfolding cached_ladder_cycle current_rebuild_cycle visible_scalable_route_counts
policy_cycles_lem f v =
    let (visible, counted, each) = visible_lem f.sources [] f.routes v.in_range in
    let bandwidth = receiver_bandwidth_by_user f in
    let pairs = chosen f bandwidth visible 0 f.routes in
    let planned = inputs pairs in
    let groups = group_pairs f bandwidth visible [] pairs in
    let (all, sized, even) =
      group_pairs_lem f bandwidth visible [] pairs
        (chosen-IsPlanned f bandwidth visible 0 f.routes v.cached v.in_range
          (λ j. ap (get_elem? f.routes) (omega arith)))
        tt in
    let (cached, current) = plan_lem f bandwidth visible 0 0 groups all in
    let built = build_inputs-chosen f bandwidth visible 0 f.routes v.in_range in
    let routed = group_routes-pairs f bandwidth visible 0 [] f.routes v.cached v.in_range in
    let grouped = group_inputs-pairs f bandwidth visible [] pairs in
    let many = length-map (λ p. p.1) pairs in
    let over = ap (over_count bandwidth) grouped in
    (
      visible,
      planned,
      group_inputs [] planned,
      counted,
      (λ consumer.
          each consumer
          ∙ ap (λ o. unwrap_or o 0 + seen f.sources consumer f.routes) (get_nil number_key consumer)
          ∙ omega arith),
      refl,
      group_inputs-IsKeyed [] planned tt,
      (λ consumer. group_inputs_lem consumer planned),
      rw (counted, routed) (cached ∙ ap some (omega (arith, sized, many, over))),
      rw (counted, built)
          (ap some (
            ap (plan_current_routes 0) grouped ∙ current ∙ omega (arith, sized, even, many, over))),
    )
