-- ===== src/Tests/Simd.antt =====
-- src/simd_packet_hotpath.rs and src/routing_miss_fingerprint.rs: tests and instances.
use o_sfu_benchmarks.Base.{
  ℕ, ◌/◌, ◌%◌, not, ◌*◌, ◌≡◌, refl, arith, Bool, true, false, some, List, [], ◌∷◌, ◌==◌, replicate,
  get_or, min, u64_max, inr,
}
use o_sfu_benchmarks.Fingerprint.Scalar.{packet_fingerprint_scalar}
use o_sfu_benchmarks.Fingerprint.Fixture.{miss_gate_mix}
use o_sfu_benchmarks.Fingerprint.Counts.{Holds, miss_gate_mix-Holds}
use o_sfu_benchmarks.Simd.Vector.{aarch64, x86_64, portable}
use o_sfu_benchmarks.Simd.Fingerprint.{packet_fingerprint_simd, simd-eq-scalar}
use o_sfu_benchmarks.Simd.H264.{stap_a_contains_idr_simd, payload_starts_idr_simd}
use o_sfu_benchmarks.Simd.H264.Units.{Units, end, malformed, unit, verdict}
use o_sfu_benchmarks.Simd.H264.Scan.{stap_a-verdict, stap_a_total}
use o_sfu_benchmarks.Simd.Vp8.{simple_payload_starts_keyframe, payload_starts_keyframe_simd_batch}
use o_sfu_benchmarks.Simd.Vp8.Batch.{keyframes, judged, simd_batch-keyframes}

abbrev packet : List ℕ
packet = 1 ∷ 2 ∷ 3 ∷ 4 ∷ 5 ∷ 6 ∷ 7 ∷ 8 ∷ 9 ∷ 10 ∷ 11 ∷ 12 ∷ 13 ∷ 14 ∷ 15 ∷ 16 ∷ 17 ∷ []

simd-eq-scalar_example : packet_fingerprint_simd x86_64 packet ≡ packet_fingerprint_scalar packet
simd-eq-scalar_example = simd-eq-scalar x86_64 packet

-- A slice of two bytes, and an IDR slice of one.
abbrev stap_a : List ℕ
stap_a = 0 ∷ 2 ∷ 0x41 ∷ 7 ∷ 0 ∷ 1 ∷ 0x65 ∷ []

-- The same with a third unit that is cut off.
abbrev cut_off : List ℕ
cut_off = 0 ∷ 2 ∷ 0x41 ∷ 7 ∷ 0 ∷ 1 ∷ 0x65 ∷ 0 ∷ 9 ∷ 0x41 ∷ []

abbrev stap_a_units : Units stap_a (1 ∷ 5 ∷ []) true
stap_a_units =
    unit 0 2 0x41 _ (omega arith) (omega arith) (unit 0 1 0x65 _ (omega arith) (omega arith) end)

abbrev cut_off_units : Units cut_off (1 ∷ 5 ∷ []) false
cut_off_units =
    unit 0 2 0x41 _ (omega arith) (omega arith)
      (unit 0 1 0x65 _ (omega arith) (omega arith) (malformed 0 9 _ (inr (omega arith))))

scans :
    (payload_starts_idr_simd aarch64 (24 ∷ stap_a) ≡ some true)
    × (payload_starts_idr_simd aarch64 (24 ∷ cut_off) ≡ some false)
    × (payload_starts_idr_simd portable (28 ∷ 0x85 ∷ []) ≡ some true)
    × (payload_starts_idr_simd portable (28 ∷ 0x05 ∷ []) ≡ some false)
unfolding payload_starts_idr_simd
scans = (refl, refl, refl, refl)

stap_a-verdict_example : stap_a_contains_idr_simd x86_64 stap_a ≡ some (verdict true (1 ∷ 5 ∷ []))
stap_a-verdict_example = stap_a-verdict x86_64 stap_a_units

stap_a_total_example :
    (found : Bool) × (stap_a_contains_idr_simd aarch64 cut_off ≡ some found)
    × (stap_a_contains_idr_simd portable cut_off ≡ some found)
stap_a_total_example = stap_a_total aarch64 cut_off

-- A scanner that accepts the payloads with the X bit, and no other.
abbrev extended_scanner : List ℕ → Bool
extended_scanner payload = not (get_or payload 0 0 / 128 % 2 == 0)

abbrev vp8_payloads : List (List ℕ)
vp8_payloads =
    (0x10 ∷ 0x00 ∷ replicate 6 9)
    ∷ (0x10 ∷ 0x01 ∷ replicate 6 9)
    ∷ (0x90 ∷ 0x80 ∷ replicate 6 0)
    ∷ (0x11 ∷ 0x00 ∷ replicate 6 0)
    ∷ []

two_keyframes : payload_starts_keyframe_simd_batch x86_64 extended_scanner vp8_payloads ≡ 2
unfolding payload_starts_keyframe_simd_batch simple_payload_starts_keyframe
two_keyframes = refl

simd_batch-keyframes_example :
    payload_starts_keyframe_simd_batch aarch64 extended_scanner vp8_payloads
    ≡ min (keyframes (judged extended_scanner) vp8_payloads) u64_max
simd_batch-keyframes_example =
    simd_batch-keyframes aarch64 extended_scanner vp8_payloads (omega arith)

miss_gate_mix-Holds_example : Holds (2 * 100) (2 * 34_225) (miss_gate_mix 2)
miss_gate_mix-Holds_example = miss_gate_mix-Holds 2
