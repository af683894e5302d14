-- ===== src/Simd/Fingerprint.antt =====
-- `packet_fingerprint_simd` of src/simd_packet_hotpath.rs against the scalar fingerprint.
use o_sfu_benchmarks.Base.{
  ℕ, ◌-◌, ◌≤◌, ◌≡◌, refl, sym, ap, ◌∙◌, List, ◌++◌, arith, length, take, drop, replicate,
  length-drop, take_all, take-take, take_of_append, drop-drop, ltb, if◌then◌else◌, Bool-cases, inl,
  inr,
}
use o_sfu_benchmarks.Fingerprint.Scalar.{
  from_le_bytes, load_u64_padded, last_eight, mix, packet_fingerprint_scalar, load_full,
}
use o_sfu_benchmarks.Simd.Vector.{
  Target, aarch64, x86_64, portable, load, lane_u64, cvtsi128_u64, srli_8,
}

unfoldable pub simd_first_u64 : Target → List ℕ → ℕ
unfolding load lane_u64 cvtsi128_u64
simd_first_u64 aarch64 packet = lane_u64 0 (load packet 0)
simd_first_u64 x86_64 packet = cvtsi128_u64 (load packet 0)
simd_first_u64 portable packet = load_u64_padded packet

-- The vector branches run on 16 bytes or more only, where `len - 16` does not underflow.
unfoldable pub simd_last_u64 : Target → List ℕ → ℕ
unfolding load lane_u64 cvtsi128_u64 srli_8
simd_last_u64 aarch64 packet = lane_u64 1 (load packet (length packet - 16))
simd_last_u64 x86_64 packet = cvtsi128_u64 (srli_8 (load packet (length packet - 16)))
simd_last_u64 portable packet = load_u64_padded (last_eight packet)

unfoldable pub packet_fingerprint_simd : Target → List ℕ → ℕ
unfolding simd_first_u64 simd_last_u64 mix
packet_fingerprint_simd target packet =
    if ltb (length packet) 16
    then packet_fingerprint_scalar packet
    else mix (length packet) (simd_first_u64 target packet) (simd_last_u64 target packet)

module _ (packet : List ℕ) (enough : 16 ≤ length packet) where
  -- The last 16 bytes need no cut at their end.
  window : load packet (length packet - 16) ≡ drop (length packet - 16) packet
  unfolding load
  window = take_all 16 _ (omega (arith, length-drop (length packet - 16) packet))

  -- The high half of that window is the last eight bytes.
  high_half : drop 8 (load packet (length packet - 16)) ≡ last_eight packet
  unfolding last_eight
  high_half = rw window (drop-drop 8 (length packet - 16) _ packet (omega arith))

  length-last_eight : length (last_eight packet) ≡ 8
  unfolding last_eight
  length-last_eight = omega (arith, length-drop (length packet - 8) packet)

  first-eq-load : (target : Target) → simd_first_u64 target packet ≡ load_u64_padded packet
  unfolding simd_first_u64
  first-eq-load aarch64 =
      ap from_le_bytes (take-take 8 16 packet (omega arith)) ∙ sym (load_full packet (omega arith))
  first-eq-load x86_64 =
      ap from_le_bytes (take-take 8 16 packet (omega arith)) ∙ sym (load_full packet (omega arith))
  first-eq-load portable = refl

  last-eq-load :
      (target : Target) → simd_last_u64 target packet ≡ load_u64_padded (last_eight packet)
  unfolding simd_last_u64 lane_u64 cvtsi128_u64 srli_8
  last-eq-load aarch64 =
      ap (λ half. from_le_bytes (take 8 half)) high_half
      ∙ sym (load_full (last_eight packet) (omega (arith, length-last_eight)))
  last-eq-load x86_64 =
      ap (λ half. from_le_bytes (take 8 (half ++ replicate 8 0))) high_half
      ∙ ap from_le_bytes
          (take_of_append 8 (last_eight packet) (replicate 8 0) (omega (arith, length-last_eight)))
      ∙ sym (load_full (last_eight packet) (omega (arith, length-last_eight)))
  last-eq-load portable = refl

-- The vector fingerprint is the scalar one, for packets of any length.
pub simd-eq-scalar :
    (target : Target) (packet : List ℕ)
    → packet_fingerprint_simd target packet ≡ packet_fingerprint_scalar packet
unfolding packet_fingerprint_simd packet_fingerprint_scalar
simd-eq-scalar target packet = elim (Bool-cases (ltb (length packet) 16)) [
  | inl short ↦ rw short
  | inr long ↦
      let enough : 16 ≤ length packet = ground arith in
      rw (long, first-eq-load packet enough target, last-eq-load packet enough target)
]
