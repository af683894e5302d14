-- ===== src/Simd/Fixture.antt =====
-- The three fixtures of src/simd_packet_hotpath.rs: the payloads that their constructors build, and
-- their cycles. The scalar scanner of o-sfu-rfc for VP8 is a parameter.
pub mod Packets
pub mod Payloads
use Prim.Native.Nat.{bit_and}
use o_sfu_benchmarks.Base.{
  ℕ, zero, suc, ◌+◌, ◌/◌, ◌%◌, ◌==◌, Bool, true, false, ◌&&◌, Option, none, some, List, [], ◌∷◌,
  ◌++◌, if◌then◌else◌, ltb, length, tabulate, saturating_add, wrapping_add, wrapping_mul,
}
use o_sfu_benchmarks.Fingerprint.Scalar.{packet_fingerprint_scalar}
use o_sfu_benchmarks.Fingerprint.Fixture.{xor_cycle}
use o_sfu_benchmarks.Simd.Vector.{Target}
use o_sfu_benchmarks.Simd.Fingerprint.{packet_fingerprint_simd}
use o_sfu_benchmarks.Simd.H264.{nal_unit_type_idr, nal_unit_type_stap_a, payload_starts_idr_simd}
use o_sfu_benchmarks.Simd.Vp8.{from_bool, payload_starts_keyframe_simd_batch}

-- `u8::try_from(mixed & 0xff)` is the low byte.
unfoldable pub deterministic_byte : ℕ → ℕ → ℕ
deterministic_byte packet_index byte_index =
    wrapping_add (wrapping_add (wrapping_mul packet_index 31) (wrapping_mul byte_index 17)) 13 % 256

pub record PacketFixture : Type 0 where
  pub packets : List (List ℕ)

unfoldable pub new_packets : ℕ → ℕ → PacketFixture
new_packets packet_count packet_len = record {
  packets =
      tabulate (λ packet_index. tabulate (deterministic_byte packet_index) packet_len) packet_count;
}

unfoldable pub packet_scalar_cycle : PacketFixture → ℕ
packet_scalar_cycle f = xor_cycle packet_fingerprint_scalar 0 f.packets

unfoldable pub packet_simd_cycle : Target → PacketFixture → ℕ
packet_simd_cycle target f = xor_cycle (packet_fingerprint_simd target) 0 f.packets

-- `u16::to_be_bytes`
unfoldable pub to_be_bytes : ℕ → List ℕ
to_be_bytes n = n / 256 ∷ n % 256 ∷ []

unfoldable pub nal_type_at : ℕ → Bool → ℕ → ℕ
nal_type_at nal_count include_idr nal_index =
    if include_idr && nal_index == nal_count / 2 then nal_unit_type_idr else 1

unfoldable pub nal_at : ℕ → ℕ → Bool → ℕ → List ℕ
nal_at nal_count seed include_idr nal_index =
    nal_type_at nal_count include_idr nal_index
    ∷ deterministic_byte seed nal_index
    ∷ deterministic_byte seed (saturating_add nal_index 1)
    ∷ deterministic_byte seed (saturating_add nal_index 2)
    ∷ []

-- The loop over the indices of the units.
unfoldable pub nal_rounds : ℕ → ℕ → Bool → List ℕ → List ℕ
unfolding to_be_bytes nal_at
nal_rounds nal_count seed include_idr [] = []
nal_rounds nal_count seed include_idr (nal_index ∷ indices) =
    let nal = nal_at nal_count seed include_idr nal_index in
    to_be_bytes (length nal) ++ nal ++ nal_rounds nal_count seed include_idr indices

unfoldable pub stap_a_payload : ℕ → ℕ → Bool → List ℕ
unfolding nal_rounds
stap_a_payload nal_count seed include_idr =
    nal_unit_type_stap_a
    ∷ nal_rounds nal_count seed include_idr (tabulate (λ nal_index. nal_index) nal_count)

pub record H264Fixture : Type 0 where
  pub payloads : List (List ℕ)

unfoldable pub h264_payload_at : ℕ → ℕ → List ℕ
unfolding stap_a_payload deterministic_byte
h264_payload_at stap_a_nal_count index =
    if index % 4 == 0
    then 0x65 ∷ 0x88 ∷ deterministic_byte index 1 ∷ []
    else if index % 4 == 1
    then 0x41 ∷ 0x9a ∷ deterministic_byte index 2 ∷ []
    else stap_a_payload stap_a_nal_count index (index % 4 == 2)

unfoldable pub new_h264 : ℕ → ℕ → H264Fixture
unfolding h264_payload_at
new_h264 payload_count stap_a_nal_count = record {
  payloads = tabulate (h264_payload_at stap_a_nal_count) payload_count;
}

-- The loop of the cycle; `none` if a scan ran out of fuel.
unfoldable pub detect_loop : (List ℕ → Option Bool) → ℕ → List (List ℕ) → Option ℕ
detect_loop scan detected [] = some detected
detect_loop scan detected (payload ∷ payloads) = elim (scan payload) [
  | none ↦ none
  | some found ↦ detect_loop scan (saturating_add detected (from_bool found)) payloads
]

unfoldable pub h264_simd_cycle : Target → H264Fixture → Option ℕ
unfolding detect_loop
h264_simd_cycle target f = detect_loop (payload_starts_idr_simd target) 0 f.payloads

-- The loop of the scalar cycles.
unfoldable pub scalar_loop : (List ℕ → Bool) → ℕ → List (List ℕ) → ℕ
scalar_loop scan detected [] = detected
scalar_loop scan detected (payload ∷ payloads) =
    scalar_loop scan (saturating_add detected (from_bool (scan payload))) payloads

-- `h264::payload_starts_idr` of o-sfu-rfc is the parameter.
unfoldable pub h264_scalar_cycle : (List ℕ → Bool) → H264Fixture → ℕ
unfolding scalar_loop
h264_scalar_cycle payload_starts_idr f = scalar_loop payload_starts_idr 0 f.payloads

pub record Vp8Fixture : Type 0 where
  pub payloads : List (List ℕ)

unfoldable pub vp8_payload_at : ℕ → List ℕ
unfolding deterministic_byte
vp8_payload_at index =
    let byte = deterministic_byte index 2 in
    if ltb (index % 8) 2
    then 0x10 ∷ 0x00 ∷ byte ∷ 0 ∷ 0 ∷ 0 ∷ 0 ∷ 0 ∷ []
    else if ltb (index % 8) 4
    then 0x10 ∷ 0x01 ∷ byte ∷ 0 ∷ 0 ∷ 0 ∷ 0 ∷ 0 ∷ []
    else if index % 8 == 4
    then 0x00 ∷ 0x00 ∷ byte ∷ 0 ∷ 0 ∷ 0 ∷ 0 ∷ 0 ∷ []
    else if index % 8 == 5
    then 0x11 ∷ 0x00 ∷ byte ∷ 0 ∷ 0 ∷ 0 ∷ 0 ∷ 0 ∷ []
    else if index % 8 == 6
    then 0x90 ∷ 0x80 ∷ 0x80 ∷ 0x80 ∷ 0x00 ∷ 0x00 ∷ 0 ∷ 0 ∷ []
    else 0x90 ∷ 0x80 ∷ 0x80 ∷ 0x80 ∷ 0x01 ∷ 0x00 ∷ 0 ∷ 0 ∷ []

unfoldable pub new_vp8 : ℕ → Vp8Fixture
unfolding vp8_payload_at
new_vp8 payload_count = record { payloads = tabulate vp8_payload_at payload_count }

unfoldable pub vp8_scalar_cycle : (List ℕ → Bool) → Vp8Fixture → ℕ
unfolding scalar_loop
vp8_scalar_cycle scan f = scalar_loop scan 0 f.payloads

unfoldable pub vp8_simd_batch_cycle : Target → (List ℕ → Bool) → Vp8Fixture → ℕ
vp8_simd_batch_cycle target scan f = payload_starts_keyframe_simd_batch target scan f.payloads
