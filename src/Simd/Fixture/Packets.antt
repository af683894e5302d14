-- ===== src/Simd/Fixture/Packets.antt =====
-- The fingerprint and VP8 cycles of src/simd_packet_hotpath.rs, scalar against vector.
use Prim.Native.Nat.{bit_xor}
use o_sfu_benchmarks.Base.{
  ℕ, ◌+◌, ◌/◌, ◌&&◌, sym, ap₂, ◌≤◌, ◌<◌, ◌≡◌, refl, ◌==◌, Bool, List, [], ◌∷◌, get_or, arith, All,
  All-tabulate, min, tabulate, saturating_add, u64_max, ltb, ◌%◌, Bool-cases, inl, inr,
}
use o_sfu_benchmarks.Fingerprint.Scalar.{packet_fingerprint_scalar}
use o_sfu_benchmarks.Fingerprint.Fixture.{xor_cycle}
use o_sfu_benchmarks.Simd.Vector.{Target}
use o_sfu_benchmarks.Simd.Fingerprint.{packet_fingerprint_simd, simd-eq-scalar}
use o_sfu_benchmarks.Simd.Vp8.{from_bool}
use o_sfu_benchmarks.Simd.Vp8.Batch.{
  IsPayload, keyframes, plain_keyframe, judged, simd_batch-keyframes,
}
use o_sfu_benchmarks.Simd.Fixture.{
  deterministic_byte, PacketFixture, packet_scalar_cycle, packet_simd_cycle, vp8_payload_at,
  new_vp8, scalar_loop, vp8_scalar_cycle, vp8_simd_batch_cycle,
}

xor_cycle-simd :
    (target : Target) (packets : List (List ℕ)) (value : ℕ)
    → xor_cycle (packet_fingerprint_simd target) value packets
      ≡ xor_cycle packet_fingerprint_scalar value packets
unfolding xor_cycle
xor_cycle-simd target [] value = refl
xor_cycle-simd target (packet ∷ packets) value =
    let next = bit_xor value (packet_fingerprint_scalar packet) in
    rw (simd-eq-scalar target packet) (xor_cycle-simd target packets next)

-- The two fingerprint cycles return the same on every fixture and every target.
pub packet_cycles-eq :
    (target : Target) (f : PacketFixture) → packet_simd_cycle target f ≡ packet_scalar_cycle f
unfolding packet_simd_cycle packet_scalar_cycle
packet_cycles-eq target f = xor_cycle-simd target f.packets 0

scalar_loop-keyframes :
    (scan : List ℕ → Bool) (payloads : List (List ℕ)) (detected : ℕ)
    → detected ≤ u64_max
    → scalar_loop scan detected payloads ≡ min (detected + keyframes scan payloads) u64_max
unfolding scalar_loop keyframes
scalar_loop-keyframes scan [] detected h = omega arith
scalar_loop-keyframes scan (payload ∷ payloads) detected h = omega (
  arith,
  scalar_loop-keyframes scan payloads (saturating_add detected (from_bool (scan payload)))
      (omega arith),
)

keyframes-eq :
    (scan scan' : List ℕ → Bool) (payloads : List (List ℕ))
    → All (λ payload. scan payload ≡ scan' payload) payloads
    → keyframes scan payloads ≡ keyframes scan' payloads
unfolding keyframes
keyframes-eq scan scan' [] same = refl
keyframes-eq scan scan' (payload ∷ payloads) same =
    ap₂ (λ b n. from_bool b + n) same.0 (keyframes-eq scan scan' payloads same.1)

byte_bound : (i j : ℕ) → deterministic_byte i j < 256
unfolding deterministic_byte
byte_bound i j = omega arith

small-IsPayload :
    (a b c d e f : ℕ)
    → a < 256
    → b < 256
    → c < 256
    → d < 256
    → e < 256
    → f < 256
    → IsPayload (a ∷ b ∷ c ∷ d ∷ e ∷ f ∷ 0 ∷ 0 ∷ [])
small-IsPayload a b c d e f p q r s t u =
    (refl, (p, (q, (r, (s, (t, (u, (omega arith, (omega arith, tt)))))))))

vp8_payload_at-IsPayload : (i : ℕ) → IsPayload (vp8_payload_at i)
unfolding vp8_payload_at
vp8_payload_at-IsPayload i =
    let z : 0 < 256 = omega arith in
    let x : 0x80 < 256 = omega arith in
    let b = byte_bound i 2 in
    elim (Bool-cases (ltb (i % 8) 2)) [
      | inl h ↦ rw h (small-IsPayload 0x10 0 _ 0 0 0 (omega arith) z b z z z)
      | inr h ↦ rw h (elim (Bool-cases (ltb (i % 8) 4)) [
        | inl h4 ↦ rw h4 (small-IsPayload 0x10 1 _ 0 0 0 (omega arith) (omega arith) b z z z)
        | inr h4 ↦ rw h4 (elim (Bool-cases (i % 8 == 4)) [
          | inl h5 ↦ rw h5 (small-IsPayload 0 0 _ 0 0 0 z z b z z z)
          | inr h5 ↦ rw h5 (elim (Bool-cases (i % 8 == 5)) [
            | inl h6 ↦ rw h6 (small-IsPayload 0x11 0 _ 0 0 0 (omega arith) z b z z z)
            | inr h6 ↦ rw h6 (elim (Bool-cases (i % 8 == 6)) [
              | inl h7 ↦ rw h7 (small-IsPayload 0x90 0x80 0x80 0x80 0 0 (omega arith) x x x z z)
              | inr h7 ↦
                  rw h7
                    (small-IsPayload 0x90 0x80 0x80 0x80 1 0 (omega arith) x x x (omega arith) z)
            ])
          ])
        ])
      ])
    ]

-- What RFC 7741 documents of a payload without the X bit, its reserved bit 3 clear: it starts a
-- keyframe when the S bit is set, the partition index (the low three bits) is zero, and the P bit of
-- the frame header, which follows the one byte of descriptor, is zero.
abbrev pub IsRfc7741 : (List ℕ → Bool) → Type 0
IsRfc7741 scan =
    (payload : List ℕ)
    → IsPayload payload
    → get_or payload 0 0 / 128 % 2 ≡ 0
    → get_or payload 0 0 / 8 % 2 ≡ 0
    → scan payload ≡ (
        get_or payload 0 0 / 16 % 2 == 1
        && get_or payload 0 0 % 8 == 0
        && get_or payload 1 0 % 2 == 0)

module _ (target : Target) (scan : List ℕ → Bool) (documented : IsRfc7741 scan) where
  -- The fixture's payloads without the X bit have the reserved bit clear.
  vp8_payload_at-judged : (i : ℕ) → judged scan (vp8_payload_at i) ≡ scan (vp8_payload_at i)
  unfolding vp8_payload_at judged plain_keyframe
  vp8_payload_at-judged i =
      let b = byte_bound i 2 in
      let plain = λ (d h : ℕ) (p : d < 256) (q : h < 256) (x : d / 128 % 2 ≡ 0) (r : d / 8 % 2 ≡ 0).
        documented (d ∷ h ∷ deterministic_byte i 2 ∷ 0 ∷ 0 ∷ 0 ∷ 0 ∷ 0 ∷ [])
          (small-IsPayload d h _ 0 0 0 p q b (omega arith) (omega arith) (omega arith)) x r in
      elim (Bool-cases (ltb (i % 8) 2)) [
        | inl c ↦ rw c (sym (plain 0x10 0 (omega arith) (omega arith) refl refl))
        | inr c ↦ rw c (elim (Bool-cases (ltb (i % 8) 4)) [
          | inl c4 ↦ rw c4 (sym (plain 0x10 1 (omega arith) (omega arith) refl refl))
          | inr c4 ↦ rw c4 (elim (Bool-cases (i % 8 == 4)) [
            | inl c5 ↦ rw c5 (sym (plain 0 0 (omega arith) (omega arith) refl refl))
            | inr c5 ↦ rw c5 (elim (Bool-cases (i % 8 == 5)) [
              | inl c6 ↦ rw c6 (sym (plain 0x11 0 (omega arith) (omega arith) refl refl))
              | inr c6 ↦
                  rw c6
                    (elim (Bool-cases (i % 8 == 6)) [ inl c7 ↦ rw c7 refl | inr c7 ↦ rw c7 refl ])
            ])
          ])
        ])
      ]

  -- On the fixture that `new` builds the batched VP8 cycle returns what the scalar cycle does, on
  -- every target. Of the scalar scanner only what RFC 7741 documents is assumed: of a payload that
  -- has neither the X bit nor the reserved bit 3, it accepts those with the S bit set, a zero
  -- partition index in the low three bits, and the lowest bit of the second byte clear.
  pub new_vp8-cycles :
      (n : ℕ) → vp8_simd_batch_cycle target scan (new_vp8 n) ≡ vp8_scalar_cycle scan (new_vp8 n)
  unfolding new_vp8 vp8_simd_batch_cycle vp8_scalar_cycle
  new_vp8-cycles n =
      let payloads = tabulate vp8_payload_at n in
      let batched =
        simd_batch-keyframes target scan payloads
          (All-tabulate IsPayload vp8_payload_at vp8_payload_at-IsPayload n) in
      let same =
        keyframes-eq (judged scan) scan payloads
          (All-tabulate (λ p. judged scan p ≡ scan p) vp8_payload_at vp8_payload_at-judged n) in
      omega (arith, batched, same, scalar_loop-keyframes scan payloads 0 (omega arith))
