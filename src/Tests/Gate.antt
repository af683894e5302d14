-- ===== src/Tests/Gate.antt =====
-- src/consumer_packet_gate.rs: tests and instances.
use o_sfu_benchmarks.Base.{
  ℕ, ◌≡◌, refl, arith, some, none, List, [], ◌∷◌, map, length, get_elem?, replicate, Option,
  ℕ_discrete,
}
use o_sfu_benchmarks.Tests.Keys.{PlainKey, PlainKey-discrete, plain_keys, plain_media}
use o_sfu_benchmarks.Gate.Index.{IsIndexed}
use o_sfu_benchmarks.Gate.Defs.{
  PacketGate, open_gate, PacketGate-discrete, pending-discrete, RouteDestination,
}
use o_sfu_benchmarks.Gate.Batch.{
  BatchFixture, new_batch, next_gate, current_linear_batch_cycle, media_id_indexed_batch_cycle,
  identity_indexed_batch_cycle,
}
use o_sfu_benchmarks.Gate.Batch.Rounds.{settled}
use o_sfu_benchmarks.Gate.Batch.Agreement.{IsConsistent, batch_cycles-agree}
use o_sfu_benchmarks.Gate.Batch.New.{new_batch-IsConsistent}
use o_sfu_benchmarks.Gate.Maintenance.{
  MaintenanceFixture, new_maintenance, current_linear_remove_add_cycle,
  media_id_indexed_swap_remove_add_cycle, media_id_indexed_stable_remove_add_cycle, build_rounds,
  build_current_linear_route, build_media_id_indexed_route,
}
use o_sfu_benchmarks.Gate.Maintenance.Cycles.{IsCycled, replacing_cycles_lem}
use o_sfu_benchmarks.Gate.Maintenance.Runs.{cycles, IsRun, maintenance_cycles-agree}
use o_sfu_benchmarks.Gate.Maintenance.Routes.{new_maintenance-IsMaintained, build_rounds_lem}

abbrev gates_of : Option (BatchFixture PlainKey ℕ × ℕ) → Option (List PacketGate × ℕ)
gates_of none = none
gates_of (some (f, n)) = some (map (λ d. d.gate) f.destinations, n)

-- Of three destinations the first, blocked and inactive, opens.
linear_batch_test :
    gates_of
      (current_linear_batch_cycle plain_keys plain_media (new_batch plain_keys plain_media 3))
    ≡ some (open_gate ∷ open_gate ∷ open_gate ∷ [], 3)
unfolding current_linear_batch_cycle new_batch PacketGate-discrete pending-discrete
    PlainKey-discrete ℕ_discrete
linear_batch_test = refl

abbrev ids_of : Option (MaintenanceFixture PlainKey ℕ × List ℕ) → Option (List ℕ × List ℕ)
ids_of none = none
ids_of (some (f, ns)) = some (map (λ d. d.media_id) f.destinations, ns)

-- Two cycles on three destinations: the stable ones keep the order, the swapping ones do not.
stable_test :
    ids_of (
      cycles
        (media_id_indexed_stable_remove_add_cycle plain_keys plain_media)
        2
        (new_maintenance plain_keys plain_media 3))
    ≡ some (1_001 ∷ 1_003 ∷ 1_004 ∷ [], 3 ∷ 3 ∷ [])
unfolding media_id_indexed_stable_remove_add_cycle new_maintenance ℕ_discrete
stable_test = refl

swap_test :
    ids_of (
      cycles
        (media_id_indexed_swap_remove_add_cycle plain_keys plain_media)
        2
        (new_maintenance plain_keys plain_media 3))
    ≡ some (1_002 ∷ 1_003 ∷ 1_004 ∷ [], 3 ∷ 3 ∷ [])
unfolding media_id_indexed_swap_remove_add_cycle new_maintenance ℕ_discrete
swap_test = refl

abbrev three : BatchFixture PlainKey ℕ
three = new_batch plain_keys plain_media 3

batch_cycles-agree_example :
    (r : BatchFixture PlainKey ℕ × ℕ) × (current_linear_batch_cycle plain_keys plain_media three
      ≡ some r)
    × (media_id_indexed_batch_cycle plain_keys plain_media three ≡ some r)
    × (identity_indexed_batch_cycle plain_keys plain_media three ≡ some r)
    × IsConsistent plain_keys plain_media r.0
    × ((q : ℕ) (d : RouteDestination PlainKey ℕ)
        → get_elem? three.destinations q ≡ some d
        → get_elem? r.0.destinations q
          ≡ some (
              settled plain_keys plain_media (next_gate three.next_gate_is_open).0 three.updates d))
batch_cycles-agree_example =
    batch_cycles-agree plain_keys plain_media three
      (new_batch-IsConsistent plain_keys plain_media 3 (omega arith))

abbrev route : MaintenanceFixture PlainKey ℕ
route = new_maintenance plain_keys plain_media 3

replacing_cycles_lem_example :
    IsCycled plain_keys plain_media route
      (media_id_indexed_swap_remove_add_cycle plain_keys plain_media route)
    × IsCycled plain_keys plain_media route
        (media_id_indexed_stable_remove_add_cycle plain_keys plain_media route)
unfolding new_maintenance
replacing_cycles_lem_example =
    replacing_cycles_lem plain_keys plain_media route
      (new_maintenance-IsMaintained plain_keys plain_media 3 (omega arith)) (omega arith)
      (omega arith)

maintenance_cycles-agree_example :
    ((g : MaintenanceFixture PlainKey ℕ) × (cycles
          (media_id_indexed_stable_remove_add_cycle plain_keys plain_media)
          2
          route
        ≡ some (g, replicate 2 (length route.destinations)))
      × (cycles
            (current_linear_remove_add_cycle plain_keys plain_media)
            2
            (record route { media_id_index = [] })
          ≡ some (record g { media_id_index = [] }, replicate 2 (length route.destinations)))
      × IsRun plain_keys plain_media 2 route g)
    × ((g : MaintenanceFixture PlainKey ℕ) × (cycles
            (media_id_indexed_swap_remove_add_cycle plain_keys plain_media)
            2
            route
          ≡ some (g, replicate 2 (length route.destinations)))
        × IsRun plain_keys plain_media 2 route g)
unfolding new_maintenance
maintenance_cycles-agree_example =
    maintenance_cycles-agree plain_keys plain_media 2 route []
      (new_maintenance-IsMaintained plain_keys plain_media 3 (omega arith)) (omega arith)
      (omega arith)

build_rounds_lem_example :
    (build_current_linear_route plain_keys plain_media 3 ≡ 3)
    × (build_media_id_indexed_route plain_keys plain_media 3 ≡ 3)
    × ((build_rounds plain_keys plain_media 3).0
        ≡ (new_maintenance plain_keys plain_media 3).destinations)
    × IsIndexed plain_media.key
        (λ d. d.media_id)
        (build_rounds plain_keys plain_media 3).0
        (build_rounds plain_keys plain_media 3).1
    × IsIndexed plain_media.key
        (λ d. d.media_id)
        (new_maintenance plain_keys plain_media 3).destinations
        (new_maintenance plain_keys plain_media 3).media_id_index
build_rounds_lem_example = build_rounds_lem plain_keys plain_media 3 (omega arith)
