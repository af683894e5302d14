-- ===== src/Simd/Vp8.antt =====
-- The VP8 payload scanner of src/simd_packet_hotpath.rs. `vp8::payload_starts_keyframe` is a
-- function of the crate o-sfu-rfc, a parameter here.
pub mod Lanes
pub mod Batch
use Prim.Native.Nat.{bit_and, bit_or}
use o_sfu_benchmarks.Base.{
  ℕ, zero, suc, ◌+◌, ◌*◌, ◌/◌, ◌%◌, ◌^◌, ◌==◌, Bool, true, false, not, ◌&&◌, List, [], ◌∷◌, map,
  if◌then◌else◌, length, replicate, set, get_or, saturating_add,
}
use o_sfu_benchmarks.Simd.Vector.{Target, aarch64, x86_64, portable, cmpeq_byte, movemask}

abbrev pub x_bit : ℕ
x_bit = 0x80

abbrev pub s_bit : ℕ
s_bit = 0x10

abbrev pub partition_id_mask : ℕ
partition_id_mask = 0x0f

abbrev pub interframe_bit : ℕ
interframe_bit = 0x01

unfoldable pub simple_payload_starts_keyframe : ℕ → ℕ → Bool
simple_payload_starts_keyframe descriptor payload_header =
    not (bit_and descriptor s_bit == 0)
    && bit_and descriptor partition_id_mask == 0
    && bit_and payload_header interframe_bit == 0

-- `vandq_u8` and `_mm_and_si128`, with one byte in every lane and of two registers
unfoldable pub and_byte : ℕ → List ℕ → List ℕ
and_byte mask = map (λ lane. bit_and lane mask)

unfoldable pub and_lanes : List ℕ → List ℕ → List ℕ
and_lanes [] ys = []
and_lanes (x ∷ xs) [] = []
and_lanes (x ∷ xs) (y ∷ ys) = bit_and x y ∷ and_lanes xs ys

-- `mask |= 1 << index` for each lane whose test passes, from a lane index and a mask on
unfoldable pub or_bits : ℕ → ℕ → List Bool → ℕ
or_bits index mask [] = mask
or_bits index mask (test ∷ tests) =
    or_bits (index + 1) (if test then bit_or mask (2 ^ index) else mask) tests

unfoldable pub mask_from_full_byte_lanes : List ℕ → ℕ
unfolding or_bits
mask_from_full_byte_lanes lanes = or_bits 0 0 (map (λ lane. not (lane == 0)) lanes)

-- The tests of the portable loop, lane by lane.
unfoldable pub simple_tests : List ℕ → List ℕ → List Bool
unfolding simple_payload_starts_keyframe
simple_tests [] hs = []
simple_tests (d ∷ ds) [] = []
simple_tests (d ∷ ds) (h ∷ hs) = simple_payload_starts_keyframe d h ∷ simple_tests ds hs

-- `combined` of both vector branches
unfoldable pub keyframe_lanes : List ℕ → List ℕ → List ℕ
unfolding and_byte and_lanes cmpeq_byte
keyframe_lanes descriptors payload_headers =
    and_lanes (cmpeq_byte s_bit (and_byte (bit_or s_bit partition_id_mask) descriptors))
      (cmpeq_byte 0 (and_byte interframe_bit payload_headers))

unfoldable pub simple_keyframe_mask_simd : Target → List ℕ → List ℕ → ℕ
unfolding keyframe_lanes mask_from_full_byte_lanes movemask or_bits simple_tests
simple_keyframe_mask_simd aarch64 ds hs = mask_from_full_byte_lanes (keyframe_lanes ds hs)
simple_keyframe_mask_simd x86_64 ds hs = movemask (keyframe_lanes ds hs)
simple_keyframe_mask_simd portable ds hs = or_bits 0 0 (simple_tests ds hs)

-- `u32::count_ones`: the lowest bit, and the others; 32 bits.
unfoldable pub count_ones : ℕ → ℕ → ℕ
count_ones zero n = 0
count_ones (suc width) n = n % 2 + count_ones width (n / 2)

unfoldable pub simple_keyframe_count_simd : Target → List ℕ → List ℕ → ℕ
unfolding simple_keyframe_mask_simd count_ones
simple_keyframe_count_simd target ds hs = count_ones 32 (simple_keyframe_mask_simd target ds hs)

abbrev pub from_bool : Bool → ℕ
from_bool b = if b then 1 else 0

-- `for index in 0..batch_len`, after `n` rounds
unfoldable pub tail_rounds : List ℕ → List ℕ → ℕ → ℕ → ℕ
tail_rounds ds hs detected zero = detected
tail_rounds ds hs detected (suc n) =
    saturating_add (tail_rounds ds hs detected n)
      (from_bool (simple_payload_starts_keyframe (get_or ds n 0) (get_or hs n 0)))

module _ (target : Target) (payload_starts_keyframe : List ℕ → Bool) where
  -- The loop over the payloads, with its variables `descriptors`, `payload_headers`, `batch_len`
  -- and `detected`; the loop over what is left in the batch ends it.
  unfoldable pub batch_loop : List (List ℕ) → List ℕ → List ℕ → ℕ → ℕ → ℕ
  batch_loop [] ds hs batch_len detected = tail_rounds ds hs detected batch_len
  batch_loop (payload ∷ payloads) ds hs batch_len detected =
      let descriptor = get_or payload 0 0 in
      let ds' = set ds batch_len descriptor in
      let hs' = set hs batch_len (get_or payload 1 0) in
      let extended =
        batch_loop payloads ds hs batch_len
          (saturating_add detected (from_bool (payload_starts_keyframe payload))) in
      let flushed =
        batch_loop payloads ds' hs' 0
          (saturating_add detected (simple_keyframe_count_simd target ds' hs')) in
      let batched = batch_loop payloads ds' hs' (saturating_add batch_len 1) detected in
      if not (bit_and descriptor x_bit == 0)
      then extended
      else if saturating_add batch_len 1 == length ds'
      then flushed
      else batched

  unfoldable pub payload_starts_keyframe_simd_batch : List (List ℕ) → ℕ
  unfolding batch_loop tail_rounds simple_keyframe_count_simd simple_payload_starts_keyframe
  payload_starts_keyframe_simd_batch payloads =
      batch_loop payloads (replicate 16 0) (replicate 16 0) 0 0
