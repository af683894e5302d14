-- ===== src/Tests/Policy.antt =====
-- src/source_policy_refresh.rs: tests and instances.
use o_sfu_benchmarks.Base.{
  ℕ, ◌+◌, ◌≡◌, refl, Bool, true, some, List, [], ◌∷◌, map, length, min, u64_max, ℕ_discrete,
}
use o_sfu_benchmarks.Base.Map.{Map, get, IsKeyed}
use o_sfu_benchmarks.Base.Sort.{IsSorted, count}
use o_sfu_benchmarks.Policy.Defs.{
  Source, RouteInput, PolicyFixture, number_key, new_policy, selectable_encoding_ladder,
  receiver_bandwidth_by_user, visible_scalable_route_counts,
}
use o_sfu_benchmarks.Policy.Budget.{over_count, own, if_any}
use o_sfu_benchmarks.Policy.Visible.{seen}
use o_sfu_benchmarks.ColdPath.Checksum.{unwrap_or}
use o_sfu_benchmarks.Policy.Ladder.{ladder_lem}
use o_sfu_benchmarks.Policy.Cycles.{current_rebuild_cycle, cached_ladder_cycle, even_sources}
use o_sfu_benchmarks.Policy.Chosen.{chosen}
use o_sfu_benchmarks.Policy.Scores.{inputs}
use o_sfu_benchmarks.Policy.Scores.Agreement.{policy_cycles_lem}
use o_sfu_benchmarks.Policy.New.{new_policy-IsConsistent}

abbrev unsorted : Source
unsorted = record {
  owner = 0;
  encodings = record { max_bitrate_bps = 7 } ∷ record { max_bitrate_bps = 3 } ∷ [];
  active = true;
}

ladder_test : selectable_encoding_ladder unsorted ≡ 3 ∷ 7 ∷ []
unfolding selectable_encoding_ladder
ladder_test = refl

abbrev pair : PolicyFixture
pair = new_policy 2 1

-- Two users plan a route each, and each is over its budget; one of the routes has source 0.
cached_test : cached_ladder_cycle pair ≡ some 4
unfolding cached_ladder_cycle new_policy ℕ_discrete
cached_test = refl

rebuild_test : current_rebuild_cycle pair ≡ some 5
unfolding current_rebuild_cycle new_policy ℕ_discrete
rebuild_test = refl

ladder_lem_example :
    IsSorted (selectable_encoding_ladder unsorted)
    × ((p : ℕ → Bool)
        → count p (selectable_encoding_ladder unsorted)
          ≡ count p (map (λ e. e.max_bitrate_bps) unsorted.encodings))
ladder_lem_example = ladder_lem unsorted

policy_cycles_lem_example :
    (visible : Map ℕ ℕ) × (planned : List RouteInput) × (groups : Map ℕ (List RouteInput))
    × (visible_scalable_route_counts pair ≡ some visible)
    × ((consumer : ℕ)
        → unwrap_or (get number_key consumer visible) 0 ≡ seen pair.sources consumer pair.routes)
    × (planned ≡ inputs (chosen pair (receiver_bandwidth_by_user pair) visible 0 pair.routes))
    × IsKeyed number_key groups
    × ((consumer : ℕ) → get number_key consumer groups ≡ if_any (own consumer planned))
    × (cached_ladder_cycle pair
        ≡ some (min (length planned + over_count (receiver_bandwidth_by_user pair) groups) u64_max))
    × (current_rebuild_cycle pair
        ≡ some (
            min
              (length planned
                + over_count (receiver_bandwidth_by_user pair) groups
                + even_sources planned)
              u64_max))
policy_cycles_lem_example = policy_cycles_lem pair (new_policy-IsConsistent 2 1)
