-- ===== src/Fingerprint/Fixture.antt =====
-- `RoutingMissFingerprintBenchmarkFixture` of src/routing_miss_fingerprint.rs. The production
-- fingerprint is the helper of o-sfu-core, a parameter.
use Prim.Native.Nat.{bit_xor}
use o_sfu_benchmarks.Base.{
  ℕ, zero, suc, ◌%◌, List, [], ◌∷◌, ◌++◌, length, tabulate, rotate_left, wrapping_add, wrapping_mul,
  saturating_add, saturating_mul,
}
use o_sfu_benchmarks.Fingerprint.Scalar.{packet_fingerprint_scalar}

-- `u8::try_from(mixed & 0xff)` is the low byte.
unfoldable pub deterministic_byte : ℕ → ℕ → ℕ
unfolding rotate_left
deterministic_byte packet_index byte_index =
    wrapping_add
      (wrapping_add (wrapping_add (wrapping_mul packet_index 37) (wrapping_mul byte_index 19))
        (rotate_left byte_index 3))
      11
    % 256

unfoldable pub deterministic_packet : ℕ → ℕ → List ℕ
deterministic_packet packet_index packet_len = tabulate (deterministic_byte packet_index) packet_len

pub record FingerprintFixture : Type 0 where
  pub packets : List (List ℕ)
  pub byte_len : ℕ

unfoldable pub new : ℕ → ℕ → FingerprintFixture
new packet_count packet_len = record {
  packets = tabulate (λ packet_index. deterministic_packet packet_index packet_len) packet_count;
  byte_len = saturating_mul packet_count packet_len;
}

-- `MISS_GATE_PACKET_LENGTH_WEIGHTS`: a packet length, and how many packets of it a cycle has.
abbrev pub miss_gate_weights : List (ℕ × ℕ)
miss_gate_weights =
    (1, 1)
    ∷ (8, 1)
    ∷ (15, 1)
    ∷ (16, 1)
    ∷ (17, 1)
    ∷ (32, 12)
    ∷ (64, 14)
    ∷ (96, 12)
    ∷ (160, 18)
    ∷ (256, 10)
    ∷ (512, 8)
    ∷ (900, 10)
    ∷ (1200, 11)
    ∷ []

-- `for weight_index in 0..weight`, after `n` rounds
unfoldable pub weight_rounds : ℕ → ℕ → ℕ → FingerprintFixture → FingerprintFixture
weight_rounds cycle_index packet_len zero f = f
weight_rounds cycle_index packet_len (suc n) f =
    let g = weight_rounds cycle_index packet_len n f in
    let packet_index = wrapping_add (wrapping_add (length g.packets) cycle_index) n in
    record {
      packets = g.packets ++ deterministic_packet packet_index packet_len ∷ [];
      byte_len = saturating_add g.byte_len packet_len;
    }

unfoldable pub length_rounds : ℕ → List (ℕ × ℕ) → FingerprintFixture → FingerprintFixture
length_rounds cycle_index [] f = f
length_rounds cycle_index ((packet_len, weight) ∷ weights) f =
    length_rounds cycle_index weights (weight_rounds cycle_index packet_len weight f)

-- The loop of `miss_gate_mix` after `n` cycles.
unfoldable pub miss_gate_mix : ℕ → FingerprintFixture
miss_gate_mix zero = record { packets = []; byte_len = 0 }
miss_gate_mix (suc n) = length_rounds n miss_gate_weights (miss_gate_mix n)

unfoldable pub xor_cycle : (List ℕ → ℕ) → ℕ → List (List ℕ) → ℕ
xor_cycle fingerprint value [] = value
xor_cycle fingerprint value (packet ∷ packets) =
    xor_cycle fingerprint (bit_xor value (fingerprint packet)) packets

unfoldable pub scalar_cycle : FingerprintFixture → ℕ
scalar_cycle f = xor_cycle packet_fingerprint_scalar 0 f.packets

unfoldable pub production_cycle : (List ℕ → ℕ) → FingerprintFixture → ℕ
production_cycle routing_miss_packet_fingerprint f =
    xor_cycle routing_miss_packet_fingerprint 0 f.packets
