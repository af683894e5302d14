-- ===== src/ColdPath/Routes.antt =====
-- `RoutePlanningColdPathBenchmarkFixture` of src/packet_loop_cold_path.rs.
pub mod Laws
pub mod Digest
use Prim.Native.Nat.{bit_xor}
use o_sfu_benchmarks.Base.{
  ℕ, ◌+◌, ◌%◌, ◌==◌, Bool, true, false, not, ◌&&◌, List, [], ◌∷◌, length, tabulate, if◌then◌else◌,
  saturating_mul, wrapping_add, rotate_left,
}
use o_sfu_benchmarks.Session.{SessionKeys}
use o_sfu_benchmarks.ColdPath.Checksum.{session_checksum, benchmark_session_key}

pub data PacketGate : Type 0 where
  open_gate : PacketGate
  rid_gate : ℕ → PacketGate

unfoldable pub permits : PacketGate → ℕ → Bool
permits open_gate packet_rid = true
permits (rid_gate rid) packet_rid = rid == packet_rid

pub record RoutePacket : Type 0 where
  pub rid : ℕ
  pub source_media_id : ℕ

pub record RouteDestination (Session : Type 0) : Type 0 where
  pub session_key : Session
  pub gate : PacketGate
  pub active : Bool

pub record RouteAccounting : Type 0 where
  pub planned : ℕ
  pub rejected : ℕ
  pub checksum : ℕ

abbrev pub default : RouteAccounting
default = record { planned = 0; rejected = 0; checksum = 0 }

pub record RouteFixture (Session : Type 0) : Type 0 where
  pub packets : List RoutePacket
  pub destinations : List (RouteDestination Session)

-- The remainders fit the narrower widths.
unfoldable pub packet_at : ℕ → RoutePacket
packet_at index = record { rid = index % 3; source_media_id = index % 64 }

unfoldable pub gate_at : ℕ → PacketGate
gate_at index =
    if index % 43 == 0
    then rid_gate 7
    else if index % 11 == 0
    then rid_gate (index % 3)
    else open_gate

unfoldable pub finish_route_accounting : RouteAccounting → ℕ
unfolding rotate_left
finish_route_accounting accounting =
    bit_xor (bit_xor accounting.planned (rotate_left accounting.rejected 17)) accounting.checksum

module _ {Session : Type 0} (api : SessionKeys Session) where
  unfoldable pub destination_at : ℕ → RouteDestination Session
  unfolding gate_at benchmark_session_key
  destination_at index = record {
    session_key = benchmark_session_key api index;
    gate = gate_at index;
    active = not (index % 97 == 0);
  }

  unfoldable pub new : ℕ → ℕ → RouteFixture Session
  unfolding packet_at destination_at
  new packet_count destination_count = record {
    packets = tabulate packet_at packet_count;
    destinations = tabulate destination_at destination_count;
  }

  -- `u64::try_from(usize)` never fails.
  unfoldable pub route_attempt_count_u64 : RouteFixture Session → ℕ
  route_attempt_count_u64 f = saturating_mul (length f.packets) (length f.destinations)

  unfoldable pub account_planned_route :
      RouteAccounting → RoutePacket → RouteDestination Session → RouteAccounting
  account_planned_route accounting packet destination = record accounting {
    planned = wrapping_add accounting.planned 1;
    checksum = wrapping_add accounting.checksum (
        bit_xor (bit_xor (session_checksum api destination.session_key) packet.source_media_id)
          packet.rid);
  }

  unfoldable pub account_rejected_route :
      RouteAccounting → RoutePacket → RouteDestination Session → RouteAccounting
  account_rejected_route accounting packet destination = record accounting {
    rejected = wrapping_add accounting.rejected 1;
    checksum = wrapping_add accounting.checksum (
        bit_xor (bit_xor (session_checksum api destination.session_key) packet.source_media_id)
          packet.rid);
  }

  -- The body of the inner loop of `inline_reject_branch_cycle`: an inactive destination mixes in
  -- the packet's rid alone, a closed gate its media id alone.
  unfoldable pub inline_attempt :
      RoutePacket → RouteDestination Session → RouteAccounting → RouteAccounting
  inline_attempt packet destination accounting =
      let key = session_checksum api destination.session_key in
      if not destination.active
      then record accounting {
        rejected = wrapping_add accounting.rejected 1;
        checksum = wrapping_add accounting.checksum (bit_xor key packet.rid);
      }
      else if not (permits destination.gate packet.rid)
      then record accounting {
        rejected = wrapping_add accounting.rejected 1;
        checksum = wrapping_add accounting.checksum (bit_xor key packet.source_media_id);
      }
      else account_planned_route accounting packet destination

  -- The body of the inner loop of `cold_reject_branch_cycle`.
  unfoldable pub cold_attempt :
      RoutePacket → RouteDestination Session → RouteAccounting → RouteAccounting
  cold_attempt packet destination accounting =
      if destination.active && permits destination.gate packet.rid
      then account_planned_route accounting packet destination
      else account_rejected_route accounting packet destination

  -- The two nested loops of both cycles.
  unfoldable pub for_destinations :
      (RoutePacket → RouteDestination Session → RouteAccounting → RouteAccounting)
      → RoutePacket
      → List (RouteDestination Session)
      → RouteAccounting
      → RouteAccounting
  for_destinations attempt packet [] accounting = accounting
  for_destinations attempt packet (destination ∷ destinations) accounting =
      for_destinations attempt packet destinations (attempt packet destination accounting)

  unfoldable pub for_packets :
      (RoutePacket → RouteDestination Session → RouteAccounting → RouteAccounting)
      → List RoutePacket
      → List (RouteDestination Session)
      → RouteAccounting
      → RouteAccounting
  for_packets attempt [] destinations accounting = accounting
  for_packets attempt (packet ∷ packets) destinations accounting =
      for_packets attempt packets destinations
        (for_destinations attempt packet destinations accounting)

  unfoldable pub inline_reject_branch_cycle : RouteFixture Session → ℕ
  unfolding for_packets for_destinations inline_attempt account_planned_route permits
      session_checksum
  inline_reject_branch_cycle f =
      finish_route_accounting (for_packets inline_attempt f.packets f.destinations default)

  unfoldable pub cold_reject_branch_cycle : RouteFixture Session → ℕ
  unfolding for_packets for_destinations cold_attempt account_planned_route account_rejected_route
      permits session_checksum
  cold_reject_branch_cycle f =
      finish_route_accounting (for_packets cold_attempt f.packets f.destinations default)
