-- ===== src/Hardening/Planning.antt =====
-- `RoutePlanningBenchmarkFixture` and `LocalEgressFanoutBenchmarkFixture` of
-- src/performance_hardening.rs.
pub mod Counts
use o_sfu_benchmarks.Base.{
  ℕ, ◌%◌, ◌==◌, ◌&&◌, Bool, true, false, not, Option, none, some, List, [], ◌∷◌, ◌++◌, length,
  tabulate, replicate, if◌then◌else◌, saturating_add,
}
use o_sfu_benchmarks.Base.Int.{pos, i64_try_from, i64_saturating_add}
use o_sfu_benchmarks.Session.{SessionKeys, UserId}
use o_sfu_benchmarks.ColdPath.Checksum.{unwrap_or}

pub data PacketGate : Type 0 where
  open_gate : PacketGate
  rid_gate : ℕ → PacketGate

pub record RoutePacket : Type 0 where
  pub rid : Option ℕ

-- `option == Some(n)`
abbrev pub is_some_of : Option ℕ → ℕ → Bool
is_some_of none n = false
is_some_of (some m) n = m == n

unfoldable pub permits : PacketGate → RoutePacket → Bool
permits open_gate packet = true
permits (rid_gate rid) packet = is_some_of packet.rid rid

pub record RouteDestination (Session : Type 0) : Type 0 where
  pub session_key : Session
  pub gate : PacketGate
  pub active : Bool

pub record PlanningFixture (Session : Type 0) : Type 0 where
  pub packets : List RoutePacket
  pub destinations : List (RouteDestination Session)

pub record EgressFixture (Session : Type 0) : Type 0 where
  pub destinations : List (RouteDestination Session)
  pub payload : List ℕ
  pub scratch : List (Session × ℕ)

unfoldable pub packet_at : ℕ → RoutePacket
packet_at index = record { rid = some (index % 3) }

module _ {Session : Type 0} (api : SessionKeys Session) where
  -- Room 11, worker 0.
  unfoldable pub benchmark_session_key : ℕ → Session
  benchmark_session_key index =
      api.new 11 0 (saturating_add index 1)
        (UserId.integer (i64_saturating_add (unwrap_or (i64_try_from index) (pos 0)) 1))

  unfoldable pub destination_at : ℕ → RouteDestination Session
  unfolding benchmark_session_key
  destination_at index = record {
    session_key = benchmark_session_key index;
    gate = if index % 4 == 0 then open_gate else rid_gate (index % 3);
    active = not (index % 7 == 0);
  }

  unfoldable pub new_planning : ℕ → ℕ → PlanningFixture Session
  unfolding packet_at destination_at
  new_planning packet_count destination_count = record {
    packets = tabulate packet_at packet_count;
    destinations = tabulate destination_at destination_count;
  }

  unfoldable pub new_egress : ℕ → EgressFixture Session
  unfolding new_planning
  new_egress destination_count = record {
    destinations = (new_planning 1 destination_count).destinations;
    payload = replicate 1200 0;
    scratch = [];
  }

module _ {Session : Type 0} where
  -- The inner loop, over the destinations.
  unfoldable pub destination_rounds : ℕ → RoutePacket → List (RouteDestination Session) → ℕ
  unfolding permits
  destination_rounds route_count packet [] = route_count
  destination_rounds route_count packet (d ∷ ds) =
      destination_rounds
        (if d.active && permits d.gate packet then saturating_add route_count 1 else route_count)
        packet ds

  -- The outer loop, over the packets.
  unfoldable pub packet_rounds : ℕ → List RoutePacket → List (RouteDestination Session) → ℕ
  unfolding destination_rounds
  packet_rounds route_count [] destinations = route_count
  packet_rounds route_count (packet ∷ packets) destinations =
      packet_rounds (destination_rounds route_count packet destinations) packets destinations

  unfoldable pub destination_gate_cycle : PlanningFixture Session → ℕ
  unfolding packet_rounds
  destination_gate_cycle f = packet_rounds 0 f.packets f.destinations

  unfoldable pub plan_rounds :
      List (Session × ℕ) → List ℕ → List (RouteDestination Session) → List (Session × ℕ)
  plan_rounds scratch payload [] = scratch
  plan_rounds scratch payload (d ∷ ds) =
      plan_rounds (if d.active then scratch ++ (d.session_key, length payload) ∷ [] else scratch)
        payload ds

  unfoldable pub shared_payload_planning_cycle : EgressFixture Session → EgressFixture Session × ℕ
  unfolding plan_rounds
  shared_payload_planning_cycle f =
      let scratch = plan_rounds [] f.payload f.destinations in
      (record f { scratch = scratch }, length scratch)
