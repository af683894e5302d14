-- ===== src/Tests/Hardening.antt =====
-- src/performance_hardening.rs: tests and instances.
use o_sfu_benchmarks.Base.{
  ◌+◌, ◌≡◌, refl, arith, Bool, true, false, [], ◌∷◌, map, length, min, u64_max, ℕ_discrete,
}
use o_sfu_benchmarks.Base.Sums.{sum}
use o_sfu_benchmarks.Base.Sort.{fresh}
use o_sfu_benchmarks.Tests.Keys.{PlainKey, plain_keys}
use o_sfu_benchmarks.Hardening.Wake.{
  DirtyStates, WakeFixture, new_wake, coalesced_worker_buffer_cycle,
}
use o_sfu_benchmarks.Hardening.Wake.Marks.{wake_cycle_lem}
use o_sfu_benchmarks.Hardening.Keyframes.{
  KeyframeFixture, new_keyframes, reusable_vec_coalescing_cycle, fresh_btree_coalescing_cycle,
}
use o_sfu_benchmarks.Hardening.Keyframes.Agreement.{coalescing_cycles-agree}
use o_sfu_benchmarks.Hardening.Planning.{
  PlanningFixture, new_planning, new_egress, destination_gate_cycle, shared_payload_planning_cycle,
}
use o_sfu_benchmarks.Hardening.Planning.Counts.{routes_of, destination_gate_cycle_lem}

-- A flag.
abbrev flags : DirtyStates Bool
flags = record {
  default = false;
  mark_dirty = λ d. true;
  take_dirty = λ d. (false, d);
  take-default = refl;
  take-mark = λ d. refl;
  take-take = λ d. refl;
}

wake_test : (coalesced_worker_buffer_cycle flags (new_wake flags 11)).1 ≡ 9
unfolding coalesced_worker_buffer_cycle new_wake
wake_test = refl

no_wake_test : (coalesced_worker_buffer_cycle flags (new_wake flags 0)).1 ≡ 0
unfolding coalesced_worker_buffer_cycle new_wake
no_wake_test = refl

keyframes_test :
    ((reusable_vec_coalescing_cycle (new_keyframes 20)).1 ≡ 16)
    × (fresh_btree_coalescing_cycle (new_keyframes 20) ≡ 16)
unfolding reusable_vec_coalescing_cycle fresh_btree_coalescing_cycle new_keyframes ℕ_discrete
keyframes_test = (refl, refl)

gate_test : destination_gate_cycle (new_planning plain_keys 3 6) ≡ 7
unfolding destination_gate_cycle new_planning
gate_test = refl

egress_test : (shared_payload_planning_cycle (new_egress plain_keys 9)).1 ≡ 7
unfolding shared_payload_planning_cycle new_egress
egress_test = refl

abbrev marked : WakeFixture Bool
marked = record { dirty = false; channel_ids = 4 ∷ 2 ∷ 4 ∷ []; scratch = 9 ∷ [] }

wake_cycle_lem_example :
    ((coalesced_worker_buffer_cycle flags marked).1
      ≡ fresh (λ k. false) marked.channel_ids + min (length marked.channel_ids) 1)
    × ((flags.take_dirty (coalesced_worker_buffer_cycle flags marked).0.dirty).1 ≡ false)
    × ((coalesced_worker_buffer_cycle flags marked).0.channel_ids ≡ marked.channel_ids)
wake_cycle_lem_example = wake_cycle_lem flags marked refl (omega arith)

abbrev requested : KeyframeFixture
requested = new_keyframes 3

coalescing_cycles-agree_example :
    ((reusable_vec_coalescing_cycle requested).1
      ≡ fresh (λ k. false) (map (λ r. r.source_media_id) requested.requests))
    × (fresh_btree_coalescing_cycle requested
        ≡ fresh (λ k. false) (map (λ r. r.source_media_id) requested.requests))
    × ((reusable_vec_coalescing_cycle requested).0.requests ≡ requested.requests)
unfolding new_keyframes
coalescing_cycles-agree_example = coalescing_cycles-agree requested (omega arith)

abbrev planning : PlanningFixture PlainKey
planning = new_planning plain_keys 3 6

destination_gate_cycle_lem_example :
    destination_gate_cycle planning
    ≡ min (sum (map (routes_of planning.packets) planning.destinations)) u64_max
destination_gate_cycle_lem_example = destination_gate_cycle_lem planning
