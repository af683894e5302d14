-- ===== src/ColdPath/Stats/Laws.antt =====
-- The two observation cycles of src/packet_loop_cold_path.rs compared, and what they count.
use o_sfu_benchmarks.Base.{
  ℕ, ◌+◌, ◌%◌, ◌^◌, ◌≡◌, refl, Bool, not, ◌&&◌, List, [], ◌∷◌, arith, if◌then◌else◌,
}
use o_sfu_benchmarks.ColdPath.Stats.{
  StatsPacket, StatsAccounting, default, account_audio_policy_change, account_first_ingress,
  inline_observation, cold_observation, observe, inline_observation_cycle, cold_observation_cycle,
}

inline-eq-cold_observation :
    (packet : StatsPacket) (accounting : StatsAccounting)
    → inline_observation packet accounting ≡ cold_observation packet accounting
unfolding inline_observation cold_observation account_audio_policy_change account_first_ingress
inline-eq-cold_observation packet accounting = ground arith

observe-inline-cold :
    (packets : List StatsPacket) (accounting : StatsAccounting)
    → observe inline_observation packets accounting ≡ observe cold_observation packets accounting
unfolding observe
observe-inline-cold [] accounting = refl
observe-inline-cold (packet ∷ packets) accounting =
    rw (inline-eq-cold_observation packet accounting)
      (observe-inline-cold packets (cold_observation packet accounting))

-- The observation cycle with its rare branches inline and the one that calls cold functions
-- return the same for all packets.
pub inline_observation-eq-cold :
    (packets : List StatsPacket) → inline_observation_cycle packets ≡ cold_observation_cycle packets
unfolding inline_observation_cycle cold_observation_cycle
inline_observation-eq-cold packets = rw (observe-inline-cold packets default) refl

-- A packet that first shows a video source whose rid is not active asks for a keyframe.
abbrev pub asks_keyframe : StatsPacket → Bool
asks_keyframe packet =
    packet.first_ingress && packet.video_source && not packet.selected_rid_activated

abbrev pub sum_over : (StatsPacket → ℕ) → List StatsPacket → ℕ
sum_over value [] = 0
sum_over value (packet ∷ packets) = value packet + sum_over value packets

pub record Totals (bytes dirty keys : ℕ) (accounting : StatsAccounting) : Type 0 where
  pub bytes_total : accounting.bytes ≡ bytes % 2 ^ 64
  pub dirty_total : accounting.dirty_rooms ≡ dirty % 2 ^ 64
  pub keyframe_total : accounting.keyframes ≡ keys % 2 ^ 64

step-Totals :
    (packet : StatsPacket) (accounting : StatsAccounting) (b d k : ℕ)
    → Totals b d k accounting
    → Totals
        (b + packet.payload_len)
        (d + (if packet.audio_policy_changed then 1 else 0))
        (k + (if asks_keyframe packet then 1 else 0))
        (cold_observation packet accounting)
unfolding cold_observation account_audio_policy_change account_first_ingress
step-Totals packet accounting b d k t = ground arith

observe-Totals :
    (packets : List StatsPacket) (accounting : StatsAccounting) (b d k : ℕ)
    → Totals b d k accounting
    → Totals
        (b + sum_over (λ packet. packet.payload_len) packets)
        (d + sum_over (λ packet. if packet.audio_policy_changed then 1 else 0) packets)
        (k + sum_over (λ packet. if asks_keyframe packet then 1 else 0) packets)
        (observe cold_observation packets accounting)
unfolding observe
observe-Totals [] accounting b d k t = omega arith
observe-Totals (packet ∷ packets) accounting b d k t =
    let rest =
      observe-Totals packets (cold_observation packet accounting) _ _ _
        (step-Totals packet accounting b d k t) in
    record {
      bytes_total = omega (arith, rest.bytes_total);
      dirty_total = omega (arith, rest.dirty_total);
      keyframe_total = omega (arith, rest.keyframe_total);
    }

-- The observation counts the payload bytes, the packets with a changed audio policy, and the
-- keyframes asked for: by the first packets of video sources whose selected rid is not active.
-- The counters wrap at 2 ^ 64.
pub observation-Totals :
    (packets : List StatsPacket)
    → Totals
        (sum_over (λ packet. packet.payload_len) packets)
        (sum_over (λ packet. if packet.audio_policy_changed then 1 else 0) packets)
        (sum_over (λ packet. if asks_keyframe packet then 1 else 0) packets)
        (observe cold_observation packets default)
observation-Totals packets =
    let t = observe-Totals packets default 0 0 0 (omega arith) in
    record {
      bytes_total = omega (arith, t.bytes_total);
      dirty_total = omega (arith, t.dirty_total);
      keyframe_total = omega (arith, t.keyframe_total);
    }
