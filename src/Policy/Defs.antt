-- ===== src/Policy/Defs.antt =====
-- The sources and routes of src/source_policy_refresh.rs, the fixture, and what both of its cycles use.
use o_sfu_benchmarks.Base.{
  ℕ, zero, suc, ◌+◌, ◌-◌, ◌*◌, ◌%◌, ◌==◌, ◌&&◌, Bool, true, Option, none, some, List, [], ◌∷◌, ◌++◌,
  ◌>>=◌, map, length, tabulate, get_elem?, get_or, is_empty, if◌then◌else◌, ltb, min,
  saturating_add, ℕ_discrete,
}
use o_sfu_benchmarks.Base.Map.{Key, Map, get, insert}
use o_sfu_benchmarks.Base.Sort.{sort_by_key}

pub record Encoding : Type 0 where
  pub max_bitrate_bps : ℕ

pub record Source : Type 0 where
  pub owner : ℕ
  pub encodings : List Encoding
  pub active : Bool

pub record Route : Type 0 where
  pub consumer : ℕ
  pub source : ℕ
  pub active : Bool
  pub current_selector : ℕ

pub record RouteInput : Type 0 where
  pub consumer : ℕ
  pub source : ℕ
  pub featured : Bool
  pub visible_scalable_route_count : ℕ
  pub receiver_bandwidth_bps : Option ℕ
  pub current_selector : ℕ
  pub encodings : List ℕ

-- The set of the speakers' owners is the list of its elements in order.
pub record PolicyFixture : Type 0 where
  pub sources : List Source
  pub routes : List Route
  pub receiver_bandwidth : List (ℕ × ℕ)
  pub active_speaker_source_owners : List ℕ
  pub cached_ladders : List (List ℕ)

abbrev pub number_key : Key ℕ
number_key = record { dec = ℕ_discrete; before = ltb }

-- `source.encodings[index].max_bitrate_bps`, for an index below the length, as all of the ladder's are.
abbrev pub bitrate_at : List ℕ → ℕ → ℕ
bitrate_at bitrates index = get_or bitrates index 0

-- The indices of the encodings sorted by bitrate, and their bitrates.
unfoldable pub selectable_encoding_ladder : Source → List ℕ
unfolding sort_by_key
selectable_encoding_ladder source =
    let bitrates = map (λ e. e.max_bitrate_bps) source.encodings in
    map (bitrate_at bitrates)
      (sort_by_key (bitrate_at bitrates) (tabulate (λ i. i) (length source.encodings)))

unfoldable pub selected_encoding_index : List ℕ → ℕ → Bool → ℕ → ℕ
selected_encoding_index encodings current_selector featured visible_scalable_route_count =
    if is_empty encodings
    then 0
    else if featured
    then length encodings - 1
    else if ltb 9 visible_scalable_route_count
    then 0
    else min current_selector (length encodings - 1)

-- A seed below 2 ^ 64 is added to its remainder, which fits.
unfoldable pub benchmark_encodings : ℕ → ℕ → List Encoding
benchmark_encodings owner source_offset =
    let seed = saturating_add owner source_offset in
    record { max_bitrate_bps = saturating_add 180_000 (seed % 32_000) }
    ∷ record { max_bitrate_bps = saturating_add 540_000 (seed % 64_000) }
    ∷ record { max_bitrate_bps = saturating_add 1_400_000 (seed % 128_000) }
    ∷ []

-- The two nested loops over the users and the sources of each.
unfoldable pub new_sources : ℕ → ℕ → List Source
unfolding benchmark_encodings
new_sources zero sources_per_user = []
new_sources (suc owner) sources_per_user =
    new_sources owner sources_per_user
    ++ tabulate
        (λ source_offset. record {
          owner = owner;
          encodings = benchmark_encodings owner source_offset;
          active = true;
        })
        sources_per_user

-- The routes of a consumer, to the sources of all others.
unfoldable pub routes_of_consumer : ℕ → ℕ → List Source → List Route
routes_of_consumer consumer source_index [] = []
routes_of_consumer consumer source_index (source ∷ sources) =
    let rest = routes_of_consumer consumer (suc source_index) sources in
    if source.owner == consumer
    then rest
    else record {
      consumer = consumer;
      source = source_index;
      active = true;
      current_selector = (consumer + source_index) % 3;
    }
      ∷ rest

unfoldable pub new_routes : ℕ → List Source → List Route
unfolding routes_of_consumer
new_routes zero sources = []
new_routes (suc consumer) sources =
    new_routes consumer sources ++ routes_of_consumer consumer 0 sources

unfoldable pub new_policy : ℕ → ℕ → PolicyFixture
unfolding new_sources new_routes selectable_encoding_ladder
new_policy user_count sources_per_user =
    let sources = new_sources user_count sources_per_user in
    record {
      sources = sources;
      routes = new_routes user_count sources;
      receiver_bandwidth =
          tabulate (λ user. (user, saturating_add 1_200_000 (user % 8 * 180_000))) user_count;
      active_speaker_source_owners = tabulate (λ owner. owner) (min user_count 4);
      cached_ladders = map selectable_encoding_ladder sources;
    }

unfoldable pub route_count_u64 : PolicyFixture → ℕ
route_count_u64 f = length f.routes

-- `iter().copied().collect()`
unfoldable pub collect_rounds : {V : Type 0} → Map ℕ V → List (ℕ × V) → Map ℕ V
unfolding insert
collect_rounds m [] = m
collect_rounds m ((k, v) ∷ entries) = collect_rounds (insert number_key k v m) entries

unfoldable pub receiver_bandwidth_by_user : PolicyFixture → Map ℕ ℕ
unfolding collect_rounds
receiver_bandwidth_by_user f = collect_rounds [] f.receiver_bandwidth

-- One more for the consumer: a count is at most the number of routes, so `+=` does not overflow.
unfoldable pub count_entry : Map ℕ ℕ → ℕ → Map ℕ ℕ
unfolding get insert
count_entry counts consumer =
    insert number_key consumer (elim (get number_key consumer counts) [ none ↦ 1 | some n ↦ n + 1 ])
      counts

-- A route to a missing source panics.
unfoldable pub visible_rounds : List Source → Map ℕ ℕ → List Route → Option (Map ℕ ℕ)
unfolding count_entry
visible_rounds sources counts [] = some counts
visible_rounds sources counts (route ∷ routes) = get_elem? sources route.source >>= (λ source.
    visible_rounds sources
      (if route.active && source.active then count_entry counts route.consumer else counts) routes)

unfoldable pub visible_scalable_route_counts : PolicyFixture → Option (Map ℕ ℕ)
unfolding visible_rounds
visible_scalable_route_counts f = visible_rounds f.sources [] f.routes

unfoldable pub ladder_rounds : Map ℕ (List ℕ) → ℕ → List Source → Map ℕ (List ℕ)
unfolding selectable_encoding_ladder insert
ladder_rounds m source_index [] = m
ladder_rounds m source_index (source ∷ sources) =
    let ladder = selectable_encoding_ladder source in
    ladder_rounds (if is_empty ladder then m else insert number_key source_index ladder m)
      (suc source_index) sources

unfoldable pub selectable_ladders_by_source : PolicyFixture → Map ℕ (List ℕ)
unfolding ladder_rounds
selectable_ladders_by_source f = ladder_rounds [] 0 f.sources

-- The group of a consumer, with one more at its end.
abbrev pub pushed : {A : Type 0} → A → Option (List A) → List A
pushed x none = x ∷ []
pushed x (some xs) = xs ++ x ∷ []

-- `entry(consumer).or_default().push(x)`
unfoldable pub group_push : {A : Type 0} → ℕ → A → Map ℕ (List A) → Map ℕ (List A)
group_push consumer x groups =
    insert number_key consumer (pushed x (get number_key consumer groups)) groups
