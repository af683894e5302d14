-- ===== src/ColdPath/Stats.antt =====
-- `IncomingStatsColdPathBenchmarkFixture` of src/packet_loop_cold_path.rs.
pub mod Laws
use Prim.Native.Nat.{bit_xor}
use o_sfu_benchmarks.Base.{
  ℕ, ◌+◌, ◌%◌, ◌==◌, Bool, true, false, not, ◌&&◌, List, [], ◌∷◌, tabulate, if◌then◌else◌,
  wrapping_add, rotate_left,
}

pub record StatsPacket : Type 0 where
  pub payload_len : ℕ
  pub room_slot : ℕ
  pub first_ingress : Bool
  pub audio_policy_changed : Bool
  pub selected_rid_activated : Bool
  pub video_source : Bool

pub record StatsAccounting : Type 0 where
  pub bytes : ℕ
  pub dirty_rooms : ℕ
  pub keyframes : ℕ
  pub checksum : ℕ

abbrev pub default : StatsAccounting
default = record { bytes = 0; dirty_rooms = 0; keyframes = 0; checksum = 0 }

unfoldable pub packet_at : ℕ → StatsPacket
packet_at index = record {
  payload_len = 120 + index % 1180;
  room_slot = index % 64;
  first_ingress = index % 1021 == 0;
  audio_policy_changed = index % 173 == 0;
  selected_rid_activated = index % 17 == 0;
  video_source = not (index % 5 == 0);
}

unfoldable pub new : ℕ → List StatsPacket
unfolding packet_at
new packet_count = tabulate packet_at packet_count

unfoldable pub account_audio_policy_change : StatsAccounting → StatsPacket → StatsAccounting
account_audio_policy_change accounting packet = record accounting {
  dirty_rooms = wrapping_add accounting.dirty_rooms 1;
  checksum = wrapping_add accounting.checksum (rotate_left packet.room_slot 5);
}

unfoldable pub account_first_ingress : StatsAccounting → StatsPacket → StatsAccounting
account_first_ingress accounting packet =
    let mixed = record accounting {
      checksum = wrapping_add accounting.checksum (rotate_left packet.payload_len 11);
    } in
    if packet.video_source && not packet.selected_rid_activated
    then record mixed { keyframes = wrapping_add mixed.keyframes 1 }
    else mixed

-- `accounting.bytes = accounting.bytes.wrapping_add(..)`, in both loops
unfoldable pub add_bytes : StatsAccounting → StatsPacket → StatsAccounting
add_bytes accounting packet = record accounting {
  bytes = wrapping_add accounting.bytes packet.payload_len;
}

-- The body of the loop of `inline_observation_cycle`, statement by statement.
unfoldable pub inline_observation : StatsPacket → StatsAccounting → StatsAccounting
unfolding add_bytes
inline_observation packet accounting =
    let counted = add_bytes accounting packet in
    let after_audio =
      if packet.audio_policy_changed
      then record counted {
        dirty_rooms = wrapping_add counted.dirty_rooms 1;
        checksum = wrapping_add counted.checksum (rotate_left packet.room_slot 5);
      }
      else counted in
    let mixed = record after_audio {
      checksum = wrapping_add after_audio.checksum (rotate_left packet.payload_len 11);
    } in
    let requested =
      if packet.video_source && not packet.selected_rid_activated
      then record mixed { keyframes = wrapping_add mixed.keyframes 1 }
      else mixed in
    if packet.first_ingress then requested else after_audio

-- The body of the loop of `cold_observation_cycle`.
unfoldable pub cold_observation : StatsPacket → StatsAccounting → StatsAccounting
unfolding add_bytes
cold_observation packet accounting =
    let counted = add_bytes accounting packet in
    let after_audio =
      if packet.audio_policy_changed then account_audio_policy_change counted packet else counted in
    if packet.first_ingress then account_first_ingress after_audio packet else after_audio

unfoldable pub observe :
    (StatsPacket → StatsAccounting → StatsAccounting)
    → List StatsPacket
    → StatsAccounting
    → StatsAccounting
observe step [] accounting = accounting
observe step (packet ∷ packets) accounting = observe step packets (step packet accounting)

unfoldable pub finish_stats_accounting : StatsAccounting → ℕ
unfolding rotate_left
finish_stats_accounting accounting =
    bit_xor
      (bit_xor (bit_xor accounting.bytes (rotate_left accounting.dirty_rooms 3))
        (rotate_left accounting.keyframes 29))
      accounting.checksum

unfoldable pub inline_observation_cycle : List StatsPacket → ℕ
unfolding observe inline_observation
inline_observation_cycle packets =
    finish_stats_accounting (observe inline_observation packets default)

unfoldable pub cold_observation_cycle : List StatsPacket → ℕ
unfolding observe cold_observation account_audio_policy_change account_first_ingress
cold_observation_cycle packets = finish_stats_accounting (observe cold_observation packets default)
