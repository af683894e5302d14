-- ===== src/Fingerprint/Counts.antt =====
-- What the two constructors of src/routing_miss_fingerprint.rs build: packets, and bytes.
use native.Mathlib.Nat.{add-zero, add_assoc}
use o_sfu_benchmarks.Base.{
  ℕ, zero, suc, ◌+◌, ◌*◌, ◌≤◌, ◌≡◌, refl, List, [], ◌∷◌, ◌++◌, arith, length, length-append,
  tabulate, length-tabulate, wrapping_add, saturating_add, u64_max,
}
use o_sfu_benchmarks.Fingerprint.Fixture.{
  deterministic_packet, FingerprintFixture, new, miss_gate_weights, weight_rounds, length_rounds,
  miss_gate_mix,
}

-- The bytes of all packets together.
abbrev pub total_len : List (List ℕ) → ℕ
total_len [] = 0
total_len (packet ∷ packets) = length packet + total_len packets

total_len-append : (ps qs : List (List ℕ)) → total_len (ps ++ qs) ≡ total_len ps + total_len qs
total_len-append [] qs = omega arith
total_len-append (p ∷ ps) qs = omega (arith, total_len-append ps qs)

length-deterministic_packet : (i n : ℕ) → length (deterministic_packet i n) ≡ n
unfolding deterministic_packet
length-deterministic_packet i n = length-tabulate _ n

total_len-tabulate : (k n : ℕ) → total_len (tabulate (λ i. deterministic_packet i k) n) ≡ n * k
total_len-tabulate k zero = omega arith
total_len-tabulate k (suc n) = omega (
  arith,
  total_len-append (tabulate (λ i. deterministic_packet i k) n) (deterministic_packet n k ∷ []),
  total_len-tabulate k n,
  length-deterministic_packet n k,
)

-- `new` builds the asked number of packets, and where the bytes fit a `usize` the recorded length
-- is that of the packets.
pub new-byte_len :
    (packet_count packet_len : ℕ)
    → packet_count * packet_len ≤ u64_max
    → (length (new packet_count packet_len).packets ≡ packet_count)
      × ((new packet_count packet_len).byte_len ≡ total_len (new packet_count packet_len).packets)
unfolding new
new-byte_len n k h = (length-tabulate _ n, omega (arith, total_len-tabulate k n))

-- The fixture has `count` packets, and its byte length is the saturated sum of their lengths.
pub record Holds (count bytes : ℕ) (f : FingerprintFixture) : Type 0 where
  pub packet_count : length f.packets ≡ count
  pub byte_count : total_len f.packets ≡ bytes
  pub recorded : f.byte_len ≡ saturating_add 0 bytes

weight_rounds-Holds :
    (cycle k n count bytes : ℕ) (f : FingerprintFixture)
    → Holds count bytes f
    → Holds (count + n) (bytes + n * k) (weight_rounds cycle k n f)
unfolding weight_rounds
weight_rounds-Holds cycle k zero count bytes f h = record {
  packet_count = omega (arith, h.packet_count);
  byte_count = omega (arith, h.byte_count);
  recorded = omega (arith, h.recorded);
}
weight_rounds-Holds cycle k (suc n) count bytes f h =
    let before = weight_rounds-Holds cycle k n count bytes f h in
    let g = weight_rounds cycle k n f in
    let index = wrapping_add (wrapping_add (length g.packets) cycle) n in
    let packet = deterministic_packet index k in
    let packet_len = length-deterministic_packet index k in
    record {
      packet_count = omega (arith, before.packet_count, length-append g.packets (packet ∷ []));
      byte_count =
          omega (arith, before.byte_count, total_len-append g.packets (packet ∷ []), packet_len);
      recorded = omega (arith, before.recorded);
    }

abbrev sum_weights : List (ℕ × ℕ) → ℕ
sum_weights [] = 0
sum_weights ((k, w) ∷ weights) = w + sum_weights weights

abbrev sum_lengths : List (ℕ × ℕ) → ℕ
sum_lengths [] = 0
sum_lengths ((k, w) ∷ weights) = w * k + sum_lengths weights

length_rounds-Holds :
    (cycle : ℕ) (weights : List (ℕ × ℕ)) (count bytes : ℕ) (f : FingerprintFixture)
    → Holds count bytes f
    → Holds
        (count + sum_weights weights)
        (bytes + sum_lengths weights)
        (length_rounds cycle weights f)
unfolding length_rounds
length_rounds-Holds cycle [] count bytes f h = rw (add-zero, add-zero) h
length_rounds-Holds cycle ((k, w) ∷ weights) count bytes f h =
    rw (← add_assoc count w (sum_weights weights), ← add_assoc bytes (w * k) (sum_lengths weights))
      (length_rounds-Holds cycle weights (count + w) (bytes + w * k) (weight_rounds cycle k w f)
        (weight_rounds-Holds cycle k w count bytes f h))

-- The mixed fixture has 100 packets and 34,225 bytes for each cycle, and records the byte length
-- of its packets, cut off at the greatest `usize`.
pub miss_gate_mix-Holds : (n : ℕ) → Holds (n * 100) (n * 34_225) (miss_gate_mix n)
unfolding miss_gate_mix
miss_gate_mix-Holds zero = record { packet_count = refl; byte_count = refl; recorded = refl }
miss_gate_mix-Holds (suc n) =
    let after =
      length_rounds-Holds n miss_gate_weights (n * 100) (n * 34_225) (miss_gate_mix n)
        (miss_gate_mix-Holds n) in
    record {
      packet_count = omega (arith, after.packet_count);
      byte_count = omega (arith, after.byte_count);
      recorded = omega (arith, after.recorded);
    }
