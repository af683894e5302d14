-- ===== src/Policy/Cycles.antt =====
-- `current_rebuild_cycle` and `cached_ladder_cycle` of src/source_policy_refresh.rs. A result is `none`
-- where the code would panic, on a position out of range.
use o_sfu_benchmarks.Base.{
  ℕ, suc, ◌+◌, ◌%◌, ◌==◌, ◌||◌, Bool, false, not, Option, none, some, List, [], ◌∷◌, ◌>>=◌, length,
  get_elem?, get_or, is_empty, contains, if◌then◌else◌, ltb, saturating_add, ℕ_discrete,
}
use o_sfu_benchmarks.Base.Map.{Map, get}
use o_sfu_benchmarks.ColdPath.Checksum.{unwrap_or}
use o_sfu_benchmarks.Hardening.Keyframes.{or_else}
use o_sfu_benchmarks.Policy.Defs.{
  Source, Route, RouteInput, PolicyFixture, number_key, selected_encoding_index,
  receiver_bandwidth_by_user, visible_scalable_route_counts, selectable_ladders_by_source,
  group_push,
}

-- `is_some_and(|budget| selected > budget)`
abbrev pub is_over : Option ℕ → ℕ → Bool
is_over none selected = false
is_over (some budget) selected = ltb budget selected

-- The bitrates that are selected for the routes, added up.
unfoldable pub add_selected : ℕ → RouteInput → ℕ
unfolding selected_encoding_index
add_selected selected route =
    let selector =
      selected_encoding_index route.encodings route.current_selector route.featured
        route.visible_scalable_route_count in
    saturating_add selected (get_or route.encodings selector 0)

-- The loop over the routes of a receiver.
unfoldable pub input_rounds : ℕ × Option ℕ → List RouteInput → ℕ × Option ℕ
unfolding add_selected
input_rounds s [] = s
input_rounds (selected, bandwidth) (route ∷ routes) =
    input_rounds (add_selected selected route, or_else bandwidth route.receiver_bandwidth_bps)
      routes

-- `iter().filter(|route| route.source % 2 == 0).count()`
abbrev pub even_sources : List RouteInput → ℕ
even_sources [] = 0
even_sources (route ∷ routes) = (if route.source % 2 == 0 then 1 else 0) + even_sources routes

unfoldable pub score_inputs : ℕ → List RouteInput → ℕ
unfolding input_rounds
score_inputs score routes =
    let (selected, bandwidth) = input_rounds (0, none) routes in
    let planned = saturating_add score (length routes) in
    let checked = if is_over bandwidth selected then saturating_add planned 1 else planned in
    saturating_add checked (even_sources routes)

unfoldable pub plan_current_routes : ℕ → Map ℕ (List RouteInput) → ℕ
unfolding score_inputs
plan_current_routes score [] = score
plan_current_routes score ((consumer, routes) ∷ groups) =
    plan_current_routes (score_inputs score routes) groups

unfoldable pub group_inputs : Map ℕ (List RouteInput) → List RouteInput → Map ℕ (List RouteInput)
unfolding group_push
group_inputs groups [] = groups
group_inputs groups (input ∷ inputs) = group_inputs (group_push input.consumer input groups) inputs

module _ (f : PolicyFixture) where
  -- The input that a route is planned from.
  abbrev pub input_of : Map ℕ ℕ → Map ℕ ℕ → Source → List ℕ → Route → RouteInput
  input_of bandwidth visible source encodings route = record {
    consumer = route.consumer;
    source = route.source;
    featured = contains ℕ_discrete source.owner f.active_speaker_source_owners;
    visible_scalable_route_count = unwrap_or (get number_key route.consumer visible) 1;
    receiver_bandwidth_bps = get number_key route.consumer bandwidth;
    current_selector = route.current_selector;
    encodings = encodings;
  }

  -- The inputs, of the active routes to active sources that have a ladder.
  unfoldable pub build_inputs :
      Map ℕ ℕ → Map ℕ ℕ → Map ℕ (List ℕ) → List Route → Option (List RouteInput)
  unfolding get contains
  build_inputs bandwidth visible ladders [] = some []
  build_inputs bandwidth visible ladders (route ∷ routes) =
      get_elem? f.sources route.source >>= (λ source.
        build_inputs bandwidth visible ladders routes >>= (λ rest. some (
          if not route.active || not source.active
          then rest
          else elim (get number_key route.source ladders) [
            | none ↦ rest
            | some encodings ↦ input_of bandwidth visible source encodings route ∷ rest
          ])))

  unfoldable pub current_rebuild_cycle : Option ℕ
  unfolding receiver_bandwidth_by_user visible_scalable_route_counts selectable_ladders_by_source
      build_inputs group_inputs plan_current_routes
  current_rebuild_cycle = visible_scalable_route_counts f >>= (λ visible.
      build_inputs (receiver_bandwidth_by_user f) visible (selectable_ladders_by_source f) f.routes
      >>= (λ inputs. some (plan_current_routes 0 (group_inputs [] inputs))))

  -- The position of the route goes to its consumer's, if the route is planned.
  unfoldable pub group_route : ℕ → Route → Map ℕ (List ℕ) → Option (Map ℕ (List ℕ))
  unfolding group_push
  group_route route_index route groups = get_elem? f.sources route.source >>= (λ source.
      if not route.active || not source.active
      then some groups
      else get_elem? f.cached_ladders route.source >>= (λ ladder.
        some (if is_empty ladder then groups else group_push route.consumer route_index groups)))

  unfoldable pub group_routes : ℕ → Map ℕ (List ℕ) → List Route → Option (Map ℕ (List ℕ))
  unfolding group_route
  group_routes route_index groups [] = some groups
  group_routes route_index groups (route ∷ routes) =
      group_route route_index route groups >>= (λ next. group_routes (suc route_index) next routes)

  -- The route at a position, with its source and the cached ladder.
  unfoldable pub planned_route : Map ℕ ℕ → ℕ → ℕ → Option ℕ
  unfolding get contains selected_encoding_index
  planned_route visible selected route_index = get_elem? f.routes route_index >>= (λ route.
      get_elem? f.sources route.source >>= (λ source.
        get_elem? f.cached_ladders route.source >>= (λ encodings.
          let selector =
            selected_encoding_index encodings route.current_selector
              (contains ℕ_discrete source.owner f.active_speaker_source_owners)
              (unwrap_or (get number_key route.consumer visible) 1) in
          some (saturating_add selected (get_or encodings selector 0)))))

  unfoldable pub index_rounds : Map ℕ ℕ → ℕ × ℕ → List ℕ → Option (ℕ × ℕ)
  unfolding planned_route
  index_rounds visible s [] = some s
  index_rounds visible (selected, count) (route_index ∷ route_indexes) =
      planned_route visible selected route_index
      >>= (λ next. index_rounds visible (next, saturating_add count 1) route_indexes)

  unfoldable pub score_indexes : Map ℕ ℕ → Map ℕ ℕ → ℕ → ℕ → List ℕ → Option ℕ
  unfolding index_rounds get
  score_indexes bandwidth visible score consumer route_indexes =
      index_rounds visible (0, 0) route_indexes >>= (λ s.
        let planned = saturating_add score s.1 in
        some (
          if is_over (get number_key consumer bandwidth) s.0
          then saturating_add planned 1
          else planned))

  unfoldable pub plan_cached_routes : Map ℕ ℕ → Map ℕ ℕ → ℕ → Map ℕ (List ℕ) → Option ℕ
  unfolding score_indexes
  plan_cached_routes bandwidth visible score [] = some score
  plan_cached_routes bandwidth visible score ((consumer, route_indexes) ∷ groups) =
      score_indexes bandwidth visible score consumer route_indexes
      >>= (λ next. plan_cached_routes bandwidth visible next groups)

  unfoldable pub cached_ladder_cycle : Option ℕ
  unfolding receiver_bandwidth_by_user visible_scalable_route_counts group_routes plan_cached_routes
  cached_ladder_cycle = visible_scalable_route_counts f >>= (λ visible.
      group_routes 0 [] f.routes
      >>= (λ groups. plan_cached_routes (receiver_bandwidth_by_user f) visible 0 groups))
