-- ===== src/Tests/ColdPath.antt =====
-- src/packet_loop_cold_path.rs: tests and instances.
use o_sfu_benchmarks.Base.{
  ◌*◌, ◌-◌, length, ◌%◌, ◌^◌, ◌≡◌, ◌≢◌, arith, true, false, not, some, List, [], ◌∷◌, if◌then◌else◌,
}
use o_sfu_benchmarks.Tests.Keys.{PlainKey, plain_keys, key_at}
use o_sfu_benchmarks.ColdPath.Ingress
use o_sfu_benchmarks.ColdPath.Ingress.{
  IngressEvent, IngressAccounting, inline_arm, cold_arm, account_events, inline_rare_branch_cycle,
  cold_rare_branch_cycle,
}
use o_sfu_benchmarks.ColdPath.Ingress.Laws.{
  is_routed, is_recovered, count_kinds, inline-eq-cold, ingress-Tallies,
}
use o_sfu_benchmarks.ColdPath.Routes
use o_sfu_benchmarks.ColdPath.Routes.{
  RoutePacket, RouteDestination, RouteFixture, open_gate, rid_gate, permits, for_packets,
  inline_attempt, cold_attempt, inline_reject_branch_cycle, cold_reject_branch_cycle,
}
use o_sfu_benchmarks.ColdPath.Routes.Laws.{planned_routes, Counts, routes-Counts}
use o_sfu_benchmarks.ColdPath.Routes.Digest.{
  shares, whole_share, part_share, digest, reject_cycles_lem,
}
use o_sfu_benchmarks.ColdPath.Stats
use o_sfu_benchmarks.ColdPath.Stats.{
  StatsPacket, observe, cold_observation, inline_observation_cycle, cold_observation_cycle,
}
use o_sfu_benchmarks.ColdPath.Stats.Laws.{
  asks_keyframe, sum_over, Totals, inline_observation-eq-cold, observation-Totals,
}

abbrev hit_event : IngressEvent
hit_event = record {
  kind = Ingress.recovery_hit;
  session_index = 5;
  payload_len = 96;
  packet_fingerprint = 77;
}

abbrev events : List IngressEvent
events = hit_event ∷ record hit_event { kind = Ingress.malformed } ∷ []

inline-eq-cold_example :
    inline_rare_branch_cycle plain_keys (record { events = events; sessions = key_at 1 ∷ [] })
    ≡ cold_rare_branch_cycle plain_keys (record { events = events; sessions = key_at 1 ∷ [] })
inline-eq-cold_example =
    inline-eq-cold plain_keys (record { events = events; sessions = key_at 1 ∷ [] })

ingress-Tallies_example :
    (after : IngressAccounting) × (account_events plain_keys
        (inline_arm plain_keys)
        events
        (key_at 1 ∷ [])
        Ingress.default
      ≡ some after)
    × (account_events plain_keys (cold_arm plain_keys) events (key_at 1 ∷ []) Ingress.default
        ≡ some after)
    × (after.routed ≡ count_kinds is_routed events % 2 ^ 64)
    × (after.dropped ≡ count_kinds (λ kind. not (is_routed kind)) events % 2 ^ 64)
    × (after.recovered ≡ count_kinds is_recovered events % 2 ^ 64)
ingress-Tallies_example = ingress-Tallies plain_keys events (key_at 1 ∷ []) (omega arith)

abbrev open_route : RouteDestination PlainKey
open_route = record { session_key = key_at 1; gate = open_gate; active = true }

abbrev inactive_route : RouteDestination PlainKey
inactive_route = record open_route { active = false }

abbrev route_packets : List RoutePacket
route_packets = record { rid = 1; source_media_id = 9 } ∷ []

routes-Counts_example :
    Counts plain_keys
      (planned_routes plain_keys route_packets (open_route ∷ inactive_route ∷ []))
      2
      (for_packets plain_keys
        (inline_attempt plain_keys)
        route_packets
        (open_route ∷ inactive_route ∷ [])
        Routes.default)
    × Counts plain_keys
        (planned_routes plain_keys route_packets (open_route ∷ inactive_route ∷ []))
        2
        (for_packets plain_keys
          (cold_attempt plain_keys)
          route_packets
          (open_route ∷ inactive_route ∷ [])
          Routes.default)
routes-Counts_example = routes-Counts plain_keys route_packets (open_route ∷ inactive_route ∷ [])

abbrev two_routes : RouteFixture PlainKey
two_routes = record { packets = route_packets; destinations = open_route ∷ inactive_route ∷ [] }

reject_cycles_lem_example :
    let planned = planned_routes plain_keys two_routes.packets two_routes.destinations in
    let rejected = length two_routes.packets * length two_routes.destinations - planned in
    (inline_reject_branch_cycle plain_keys two_routes
      ≡ digest planned rejected
          (shares plain_keys (part_share plain_keys) two_routes.packets two_routes.destinations))
    × (cold_reject_branch_cycle plain_keys two_routes
        ≡ digest planned rejected
            (shares plain_keys (whole_share plain_keys) two_routes.packets two_routes.destinations))
reject_cycles_lem_example = reject_cycles_lem plain_keys two_routes

-- With a rejected route the two cycles return different values: the inline branch leaves the
-- media id out of the checksum.
rejected_differ :
    inline_reject_branch_cycle plain_keys
      (record { packets = route_packets; destinations = inactive_route ∷ [] })
    ≢ cold_reject_branch_cycle plain_keys
        (record { packets = route_packets; destinations = inactive_route ∷ [] })
unfolding inline_reject_branch_cycle cold_reject_branch_cycle Routes.finish_route_accounting
rejected_differ = omega arith

abbrev stats_packets : List StatsPacket
stats_packets =
    record {
      payload_len = 120;
      room_slot = 3;
      first_ingress = true;
      audio_policy_changed = true;
      selected_rid_activated = false;
      video_source = true;
    }
    ∷ []

inline_observation-eq-cold_example :
    inline_observation_cycle stats_packets ≡ cold_observation_cycle stats_packets
inline_observation-eq-cold_example = inline_observation-eq-cold stats_packets

observation-Totals_example :
    Totals
      (sum_over (λ packet. packet.payload_len) stats_packets)
      (sum_over (λ packet. if packet.audio_policy_changed then 1 else 0) stats_packets)
      (sum_over (λ packet. if asks_keyframe packet then 1 else 0) stats_packets)
      (observe cold_observation stats_packets Stats.default)
observation-Totals_example = observation-Totals stats_packets
