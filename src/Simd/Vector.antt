-- ===== src/Simd/Vector.antt =====
-- The vector instructions of `std::arch` that src/simd_packet_hotpath.rs uses, over lanes: a
-- 128-bit register is the list of its 16 bytes, the lowest address first. One constructor of
-- `Target` for each `cfg` branch.
use Prim.Native.Nat.{max}
use o_sfu_benchmarks.Base.{
  leb, ℕ, ◌+◌, ◌*◌, ◌==◌, List, [], ◌∷◌, ◌++◌, map, if◌then◌else◌, take, drop, replicate,
}
use o_sfu_benchmarks.Fingerprint.Scalar.{from_le_bytes}

pub data Target : Type 0 where
  aarch64 : Target
  x86_64 : Target
  portable : Target

-- `vld1q_u8` and `_mm_loadu_si128`: the 16 bytes from an offset on.
unfoldable pub load : List ℕ → ℕ → List ℕ
load bytes offset = take 16 (drop offset bytes)

-- `vgetq_lane_u64` of the register seen as two 64-bit lanes
unfoldable pub lane_u64 : ℕ → List ℕ → ℕ
lane_u64 lane vector = from_le_bytes (take 8 (drop (8 * lane) vector))

-- `_mm_cvtsi128_si64` with the `to_le_bytes` and `from_le_bytes` around it: the low lane.
unfoldable pub cvtsi128_u64 : List ℕ → ℕ
cvtsi128_u64 vector = from_le_bytes (take 8 vector)

-- `_mm_srli_si128::<8>`
unfoldable pub srli_8 : List ℕ → List ℕ
srli_8 vector = drop 8 vector ++ replicate 8 0

-- `vceqq_u8` and `_mm_cmpeq_epi8` with one byte in every lane
unfoldable pub cmpeq_byte : ℕ → List ℕ → List ℕ
cmpeq_byte needle = map (λ lane. if lane == needle then 0xff else 0)

-- `vmaxvq_u8`
unfoldable pub max_lane : List ℕ → ℕ
max_lane [] = 0
max_lane (lane ∷ lanes) = max lane (max_lane lanes)

-- `_mm_movemask_epi8`: the top bit of lane i at bit i
unfoldable pub movemask : List ℕ → ℕ
movemask [] = 0
movemask (lane ∷ lanes) = (if leb 0x80 lane then 1 else 0) + 2 * movemask lanes
