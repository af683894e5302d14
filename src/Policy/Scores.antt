-- ===== src/Policy/Scores.antt =====
-- The scores that the two cycles of src/source_policy_refresh.rs give to the groups.
pub mod Agreement
use o_sfu_benchmarks.Base.{
  ℕ, zero, suc, ◌+◌, ◌≤◌, ◌<◌, ◌%◌, ◌==◌, Bool, true, false, Option, none, some, List, [], ◌∷◌, ◌≡◌,
  refl, sym, ap, ◌∙◌, ◌>>=◌, arith, inl, inr, map, length, length-map, get_elem?, All, min, u64_max,
  saturating_add, if◌then◌else◌, Bool-cases,
}
use o_sfu_benchmarks.Base.Map.{Map, get}
use o_sfu_benchmarks.Base.Map.Entries.{map_values, total}
use o_sfu_benchmarks.Hardening.Keyframes.{or_else}
use o_sfu_benchmarks.Policy.Defs.{RouteInput, PolicyFixture, number_key}
use o_sfu_benchmarks.Policy.Budget.{sum_selected, is_over_budget, over_count, is_over_lem}
use o_sfu_benchmarks.Policy.Cycles.{
  add_selected, input_rounds, even_sources, score_inputs, plan_current_routes, planned_route,
  index_rounds, score_indexes, plan_cached_routes,
}

abbrev pub Pairs : Type 0
Pairs = List (ℕ × RouteInput)

abbrev pub positions : Pairs → List ℕ
positions = map (λ p. p.0)

abbrev pub inputs : Pairs → List RouteInput
inputs = map (λ p. p.1)

module _ (f : PolicyFixture) (bandwidth visible : Map ℕ ℕ) where
  -- What stands at the position is planned as the input is, for the receiver.
  pub record IsPlanned (consumer : ℕ) (p : ℕ × RouteInput) : Type 0 where
    pub looked_up :
        (selected : ℕ) → planned_route f visible selected p.0 ≡ some (add_selected selected p.1)
    pub budget : p.1.receiver_bandwidth_bps ≡ get number_key consumer bandwidth

  -- A group has a route, and all of its routes are planned for its receiver.
  abbrev pub IsGroup : ℕ × Pairs → Type 0
  IsGroup (consumer, ps) = All (IsPlanned consumer) ps × (0 < length ps)

  index_rounds_lem :
      (consumer selected n : ℕ) (ps : Pairs)
      → All (IsPlanned consumer) ps
      → index_rounds f visible (selected, min n u64_max) (positions ps)
        ≡ some (sum_selected selected (inputs ps), min (n + length ps) u64_max)
  unfolding index_rounds
  index_rounds_lem consumer selected n [] u = ap (λ k. some (selected, k)) (omega arith)
  index_rounds_lem consumer selected n (p ∷ ps) u =
      let next : saturating_add (min n u64_max) 1 ≡ min (n + 1) u64_max = omega arith in
      rw (u.0.looked_up selected) (
        ap (λ k. index_rounds f visible (add_selected selected p.1, k) (positions ps)) next
        ∙ index_rounds_lem consumer (add_selected selected p.1) (n + 1) ps u.1
        ∙ ap (λ k. some (sum_selected (add_selected selected p.1) (inputs ps), k)) (omega arith))

  or_else_same : {A : Type 0} (o : Option A) → or_else o o ≡ o
  or_else_same none = refl
  or_else_same (some a) = refl

  input_rounds_lem :
      (consumer selected : ℕ) (ps : Pairs)
      → All (IsPlanned consumer) ps
      → input_rounds (selected, get number_key consumer bandwidth) (inputs ps)
        ≡ (sum_selected selected (inputs ps), get number_key consumer bandwidth)
  unfolding input_rounds
  input_rounds_lem consumer selected [] u = refl
  input_rounds_lem consumer selected (p ∷ ps) u =
      ap
        (λ b.
          input_rounds (add_selected selected p.1, or_else (get number_key consumer bandwidth) b)
            (inputs ps))
        (u.0.budget)
      ∙ ap (λ b. input_rounds (add_selected selected p.1, b) (inputs ps))
          (or_else_same (get number_key consumer bandwidth))
      ∙ input_rounds_lem consumer (add_selected selected p.1) ps u.1

  -- The budget of a group is that of its first route.
  input_rounds_start :
      (consumer : ℕ) (ps : Pairs)
      → IsGroup (consumer, ps)
      → input_rounds (0, none) (inputs ps)
        ≡ (sum_selected 0 (inputs ps), get number_key consumer bandwidth)
  unfolding input_rounds
  input_rounds_start consumer [] u = absurd (omega (arith, u.1))
  input_rounds_start consumer (p ∷ ps) u =
      ap (λ b. input_rounds (add_selected 0 p.1, b) (inputs ps)) (u.0.0.budget)
      ∙ input_rounds_lem consumer (add_selected 0 p.1) ps u.0.1

  -- One for a group over its budget.
  abbrev over : ℕ → Pairs → ℕ
  over consumer ps = if is_over_budget bandwidth consumer (inputs ps) then 1 else 0

  score_indexes_lem :
      (n consumer : ℕ) (ps : Pairs)
      → IsGroup (consumer, ps)
      → score_indexes f bandwidth visible (min n u64_max) consumer (positions ps)
        ≡ some (min (n + (length ps + over consumer ps)) u64_max)
  unfolding score_indexes
  score_indexes_lem n consumer ps u =
      rw (index_rounds_lem consumer 0 0 ps u.0, is_over_lem bandwidth consumer (inputs ps))
        (elim (Bool-cases (is_over_budget bandwidth consumer (inputs ps))) [
          | inl h ↦ rw h (ap some (omega arith))
          | inr h ↦ rw h (ap some (omega arith))
        ])

  score_inputs_lem :
      (n consumer : ℕ) (ps : Pairs)
      → IsGroup (consumer, ps)
      → score_inputs (min n u64_max) (inputs ps)
        ≡ min (n + (length ps + over consumer ps) + even_sources (inputs ps)) u64_max
  unfolding score_inputs
  score_inputs_lem n consumer ps u =
      rw (input_rounds_start consumer ps u, is_over_lem bandwidth consumer (inputs ps))
        (elim (Bool-cases (is_over_budget bandwidth consumer (inputs ps))) [
          | inl h ↦ rw h (omega (arith, length-map (λ p. p.1) ps))
          | inr h ↦ rw h (omega (arith, length-map (λ p. p.1) ps))
        ])

  -- The routes of all groups, those with an even source, and the groups over their budget.
  abbrev pub size : Map ℕ Pairs → ℕ
  size = total length

  abbrev pub even_size : Map ℕ Pairs → ℕ
  even_size = total (λ ps. even_sources (inputs ps))

  abbrev pub over_groups : Map ℕ Pairs → ℕ
  over_groups groups = over_count bandwidth (map_values inputs groups)

  pub plan_lem :
      (n e : ℕ) (groups : Map ℕ Pairs)
      → All IsGroup groups
      → (plan_cached_routes f bandwidth visible (min n u64_max) (map_values positions groups)
          ≡ some (min (n + size groups + over_groups groups) u64_max))
        × (plan_current_routes (min (n + e) u64_max) (map_values inputs groups)
            ≡ min (n + size groups + over_groups groups + (e + even_size groups)) u64_max)
  unfolding plan_cached_routes plan_current_routes
  plan_lem n e [] u = (ap some (omega arith), omega arith)
  plan_lem n e ((consumer, ps) ∷ groups) u =
      let more = length ps + over consumer ps in
      let even = even_sources (inputs ps) in
      let (cached, current) = plan_lem (n + more) (e + even) groups u.1 in
      let score : min (n + e + more + even) u64_max ≡ min (n + more + (e + even)) u64_max =
        omega arith in
      (
        rw (score_indexes_lem n consumer ps u.0) (cached ∙ ap some (omega arith)),
        ap (λ k. plan_current_routes k (map_values inputs groups))
              (score_inputs_lem (n + e) consumer ps u.0 ∙ score)
            ∙ current
            ∙ omega arith,
      )
