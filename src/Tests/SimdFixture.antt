-- ===== src/Tests/SimdFixture.antt =====
-- The fixtures of src/simd_packet_hotpath.rs: tests and instances.
use o_sfu_benchmarks.Base.{
  ℕ, ◌/◌, ◌%◌, ◌≡◌, refl, Bool, true, some, List, [], ◌∷◌, ◌==◌, get_or, min, u64_max, ltb, ◌&&◌,
  if◌then◌else◌,
}
use o_sfu_benchmarks.Simd.Vector.{x86_64, portable}
use o_sfu_benchmarks.Simd.H264.{payload_starts_idr_simd}
use o_sfu_benchmarks.Simd.Fixture.{
  deterministic_byte, nal_type_at, stap_a_payload, new_h264, h264_simd_cycle, new_vp8,
  vp8_scalar_cycle, vp8_simd_batch_cycle,
}
use o_sfu_benchmarks.Simd.Fixture.Packets.{IsRfc7741, new_vp8-cycles}
use o_sfu_benchmarks.Simd.Fixture.Payloads.{scan-stap_a_payload, idr_payloads, new_h264-simd_cycle}

-- It accepts all payloads with an extension, and ignores the reserved bits.
abbrev keyframe_scanner : List ℕ → Bool
keyframe_scanner payload =
    if get_or payload 0 0 / 128 % 2 == 0
    then (get_or payload 0 0 / 16 % 2 == 1
        && get_or payload 0 0 % 8 == 0
        && get_or payload 1 0 % 2 == 0)
    else true

keyframe_scanner-IsRfc7741 : IsRfc7741 keyframe_scanner
keyframe_scanner-IsRfc7741 payload h plain reserved = rw plain refl

-- 24, then two units of 4 bytes, the second one an IDR slice
two_units :
    stap_a_payload 2 0 true ≡ (24 ∷ 0 ∷ 4 ∷ 1 ∷ 13 ∷ 30 ∷ 47 ∷ 0 ∷ 4 ∷ 5 ∷ 30 ∷ 47 ∷ 64 ∷ [])
unfolding stap_a_payload nal_type_at deterministic_byte
two_units = refl

five_payloads : h264_simd_cycle x86_64 (new_h264 5 2) ≡ some 3
unfolding h264_simd_cycle new_h264 payload_starts_idr_simd nal_type_at
five_payloads = refl

nine_payloads : vp8_scalar_cycle keyframe_scanner (new_vp8 9) ≡ 5
unfolding vp8_scalar_cycle new_vp8
nine_payloads = refl

new_vp8-cycles_example :
    vp8_simd_batch_cycle portable keyframe_scanner (new_vp8 9)
    ≡ vp8_scalar_cycle keyframe_scanner (new_vp8 9)
new_vp8-cycles_example = new_vp8-cycles portable keyframe_scanner keyframe_scanner-IsRfc7741 9

scan-stap_a_payload_example :
    payload_starts_idr_simd x86_64 (stap_a_payload 20 7 true) ≡ some (true && ltb 0 20)
scan-stap_a_payload_example = scan-stap_a_payload x86_64 20 7 true

new_h264-simd_cycle_example :
    h264_simd_cycle x86_64 (new_h264 5 2) ≡ some (min (idr_payloads 2 5) u64_max)
new_h264-simd_cycle_example = new_h264-simd_cycle x86_64 5 2
