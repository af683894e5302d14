-- ===== src/Fingerprint/Scalar.antt =====
-- `packet_fingerprint_scalar` and `load_u64_padded` of src/routing_miss_fingerprint.rs; the same
-- two functions stand in src/simd_packet_hotpath.rs. A packet is the list of its bytes.
use Prim.Native.Nat.{bit_xor}
use o_sfu_benchmarks.Base.{
  ℕ, ◌+◌, ◌*◌, ◌≤◌, ◌≡◌, refl, ap, List, [], ◌∷◌, arith, length, take, drop, replicate, rotate_left,
  saturating_sub,
}

-- `for (slot, byte) in buffer.iter_mut().zip(bytes) { *slot = byte; }`
unfoldable pub fill : List ℕ → List ℕ → List ℕ
fill [] bytes = []
fill (slot ∷ buffer) [] = slot ∷ buffer
fill (slot ∷ buffer) (byte ∷ bytes) = byte ∷ fill buffer bytes

-- `u64::from_le_bytes`
unfoldable pub from_le_bytes : List ℕ → ℕ
from_le_bytes [] = 0
from_le_bytes (byte ∷ bytes) = byte + 256 * from_le_bytes bytes

unfoldable pub load_u64_padded : List ℕ → ℕ
unfolding fill from_le_bytes
load_u64_padded bytes = from_le_bytes (fill (replicate 8 0) bytes)

-- `packet.get(packet.len().saturating_sub(8)..).unwrap_or(packet)`: the start is in range.
unfoldable pub last_eight : List ℕ → List ℕ
last_eight packet = drop (saturating_sub (length packet) 8) packet

unfoldable pub mix : ℕ → ℕ → ℕ → ℕ
unfolding rotate_left
mix len prefix suffix =
    bit_xor (bit_xor (rotate_left len 17) (rotate_left prefix 29)) (rotate_left suffix 43)

unfoldable pub packet_fingerprint_scalar : List ℕ → ℕ
unfolding load_u64_padded last_eight mix
packet_fingerprint_scalar packet =
    mix (length packet) (load_u64_padded packet) (load_u64_padded (last_eight packet))

-- A buffer is overwritten as far as the bytes go.
fill_full :
    (buffer bytes : List ℕ)
    → length buffer ≤ length bytes
    → fill buffer bytes ≡ take (length buffer) bytes
unfolding fill
fill_full [] bytes h = refl
fill_full (slot ∷ buffer) [] h = absurd (omega arith)
fill_full (slot ∷ buffer) (byte ∷ bytes) h = ap (◌∷◌ byte) (fill_full buffer bytes (omega arith))

-- From eight bytes up the padding plays no part.
pub load_full :
    (bytes : List ℕ) → 8 ≤ length bytes → load_u64_padded bytes ≡ from_le_bytes (take 8 bytes)
unfolding load_u64_padded
load_full bytes h = ap from_le_bytes (fill_full (replicate 8 0) bytes h)
