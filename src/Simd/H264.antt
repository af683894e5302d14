-- ===== src/Simd/H264.antt =====
-- The H.264 payload scanner of src/simd_packet_hotpath.rs. The `while` loop takes fuel, and `none`
-- means that the fuel ran out, or that the code would panic on an index out of range: one more than
-- the bytes of the payload is given as fuel, and each round takes at least two of them.
pub mod Units
pub mod Scan
use Prim.Native.Nat.{bit_and}
use o_sfu_benchmarks.Base.{
  ℕ, zero, suc, ◌+◌, ◌*◌, ◌==◌, Bool, true, false, not, ◌&&◌, ◌||◌, List, [], ◌∷◌, Option, none,
  some, if◌then◌else◌, any, ltb, length, take, drop, replicate, set, saturating_add, ◌>>=◌,
}
use o_sfu_benchmarks.Simd.Vector.{Target, aarch64, x86_64, portable, cmpeq_byte, max_lane, movemask}

abbrev pub nal_unit_type_mask : ℕ
nal_unit_type_mask = 0x1f

abbrev pub nal_unit_type_idr : ℕ
nal_unit_type_idr = 5

abbrev pub nal_unit_type_stap_a : ℕ
nal_unit_type_stap_a = 24

abbrev pub nal_unit_type_fu_a : ℕ
nal_unit_type_fu_a = 28

abbrev pub fu_start_bit : ℕ
fu_start_bit = 0x80

-- Whether the bytes hold the IDR type: `contains(&H264_NAL_UNIT_TYPE_IDR)`.
abbrev pub has_idr : List ℕ → Bool
has_idr = any (λ nal_type. nal_type == nal_unit_type_idr)

unfoldable pub simd_any_eq_u8x16 : Target → List ℕ → ℕ → Bool
unfolding cmpeq_byte max_lane movemask
simd_any_eq_u8x16 aarch64 values needle = not (max_lane (cmpeq_byte needle values) == 0)
simd_any_eq_u8x16 x86_64 values needle = not (movemask (cmpeq_byte needle values) == 0)
simd_any_eq_u8x16 portable values needle = any (λ value. value == needle) values

-- `u16::from_be_bytes`
abbrev pub be_u16 : ℕ → ℕ → ℕ
be_u16 hi lo = hi * 256 + lo

-- The test for a unit that ends the scan.
abbrev pub is_malformed : ℕ → List ℕ → Bool
is_malformed nal_len rest = nal_len == 0 || ltb (length rest) nal_len

-- `rest[0] & H264_NAL_UNIT_TYPE_MASK`, which panics if there is no byte.
abbrev pub nal_type_of : List ℕ → Option ℕ
nal_type_of [] = none
nal_type_of (header ∷ rest) = some (bit_and header nal_unit_type_mask)

-- `nal_types[count] = nal_type`
abbrev pub write_type : List ℕ → ℕ → ℕ → Option (List ℕ)
write_type nal_types count nal_type =
    if ltb count (length nal_types) then some (set nal_types count nal_type) else none

-- `&bytes[start..]` and `&bytes[..end]`
abbrev pub slice_from : ℕ → List ℕ → Option (List ℕ)
slice_from start bytes = if ltb (length bytes) start then none else some (drop start bytes)

abbrev pub slice_to : ℕ → List ℕ → Option (List ℕ)
slice_to end bytes = if ltb (length bytes) end then none else some (take end bytes)

-- What follows the loop: `nal_types[..nal_type_count].contains(..)`.
abbrev pub last_group : List ℕ → ℕ → Option Bool
last_group nal_types count = slice_to count nal_types >>= (λ types. some (has_idr types))

-- The `while` loop, with its variables `payload`, `nal_types` and `nal_type_count`.
unfoldable pub stap_a_loop : Target → ℕ → List ℕ → List ℕ → ℕ → Option Bool
stap_a_loop target zero payload nal_types count = none
stap_a_loop target (suc fuel) [] nal_types count = last_group nal_types count
stap_a_loop target (suc fuel) (x ∷ []) nal_types count = last_group nal_types count
stap_a_loop target (suc fuel) (hi ∷ lo ∷ rest) nal_types count =
    let nal_len = be_u16 hi lo in
    let next = saturating_add count 1 in
    let read =
      nal_type_of rest >>= (λ nal_type. write_type nal_types count nal_type) >>= (λ written.
        let full = next == length written in
        let onward =
          slice_from nal_len rest
          >>= (λ payload. stap_a_loop target fuel payload written (if full then 0 else next)) in
        if full && simd_any_eq_u8x16 target written nal_unit_type_idr then some true else onward) in
    if is_malformed nal_len rest then some false else read

unfoldable pub stap_a_contains_idr_simd : Target → List ℕ → Option Bool
unfolding stap_a_loop simd_any_eq_u8x16
stap_a_contains_idr_simd target payload =
    stap_a_loop target (suc (length payload)) payload (replicate 16 0) 0

unfoldable pub fu_a_starts_idr : List ℕ → Bool
fu_a_starts_idr [] = false
fu_a_starts_idr (fu_header ∷ rest) =
    not (bit_and fu_header fu_start_bit == 0)
    && bit_and fu_header nal_unit_type_mask == nal_unit_type_idr

unfoldable pub payload_starts_idr_simd : Target → List ℕ → Option Bool
unfolding stap_a_contains_idr_simd fu_a_starts_idr
payload_starts_idr_simd target [] = some false
payload_starts_idr_simd target (nal_header ∷ rest) =
    let nal_type = bit_and nal_header nal_unit_type_mask in
    if nal_type == nal_unit_type_idr
    then some true
    else if nal_type == nal_unit_type_stap_a
    then stap_a_contains_idr_simd target rest
    else if nal_type == nal_unit_type_fu_a
    then some (fu_a_starts_idr rest)
    else some false
