-- ===== src/Simd/Vp8/Lanes.antt =====
-- The vector count of keyframes in src/simd_packet_hotpath.rs, on each target, against the count of
-- the lanes that pass the scalar test.
use Prim.Native.Nat.{bit_and, bit_or}
use native.Mathlib.Nat.{pow-suc}
use native.Mathlib.Numerals.{add-one}
use o_sfu_benchmarks.Base.Bits.{bit_or-top, holds_below, holds_below_at}
use o_sfu_benchmarks.Base.{
  ℕ, zero, suc, ◌+◌, ◌*◌, ◌/◌, ◌^◌, ◌≤◌, ◌<◌, ◌≡◌, refl, ap, ◌==◌, Bool, true, false, not, ◌&&◌,
  List, [], ◌∷◌, map, if◌then◌else◌, length, arith, All,
}
use o_sfu_benchmarks.Simd.Vector.{Target, aarch64, x86_64, portable, movemask}
use o_sfu_benchmarks.Simd.Vp8.{
  s_bit, partition_id_mask, or_bits, simple_tests, keyframe_lanes, simple_keyframe_mask_simd,
  count_ones, simple_keyframe_count_simd, from_bool,
}

-- The number with these bits, the lowest first, and how many are set.
abbrev bits : List Bool → ℕ
bits [] = 0
bits (b ∷ bs) = from_bool b + 2 * bits bs

abbrev pub count_true : List Bool → ℕ
count_true [] = 0
count_true (b ∷ bs) = from_bool b + count_true bs

count_ones-bits :
    (width : ℕ) (bs : List Bool) → length bs ≤ width → count_ones width (bits bs) ≡ count_true bs
unfolding count_ones
count_ones-bits zero [] h = refl
count_ones-bits zero (b ∷ bs) h = absurd (omega arith)
count_ones-bits (suc width) [] h = omega (arith, count_ones-bits width [] (omega arith))
count_ones-bits (suc width) (true ∷ bs) h =
    let rest : (1 + 2 * bits bs) / 2 ≡ bits bs = omega arith in
    rw rest (omega (arith, count_ones-bits width bs (omega arith)))
count_ones-bits (suc width) (false ∷ bs) h =
    let rest : (0 + 2 * bits bs) / 2 ≡ bits bs = omega arith in
    rw rest (omega (arith, count_ones-bits width bs (omega arith)))

two_pow-add-one : (i : ℕ) → 2 ^ (i + 1) ≡ 2 * 2 ^ i
two_pow-add-one i = rw add-one (omega (arith, pow-suc 2 i))

or_bits-bits :
    (i mask : ℕ) (bs : List Bool) → mask < 2 ^ i → or_bits i mask bs ≡ mask + 2 ^ i * bits bs
unfolding or_bits
or_bits-bits i mask [] h = omega arith
or_bits-bits i mask (true ∷ bs) h = omega (
  arith,
  bit_or-top i mask h,
  two_pow-add-one i,
  ap (λ (t : ℕ). t * bits bs) (two_pow-add-one i),
  or_bits-bits (i + 1) (bit_or mask (2 ^ i)) bs
      (omega (arith, bit_or-top i mask h, two_pow-add-one i)),
)
or_bits-bits i mask (false ∷ bs) h = omega (
  arith,
  ap (λ (t : ℕ). t * bits bs) (two_pow-add-one i),
  or_bits-bits (i + 1) mask bs (omega (arith, two_pow-add-one i)),
)

abbrev pub same : Bool → Bool → Bool
same a b = if a then b else not b

pub same→eq : (a b : Bool) → same a b ≡ true → a ≡ b
same→eq a b h = ground arith

descriptor_table :
    holds_below 256 (λ d.
      same
        (bit_and d (bit_or s_bit partition_id_mask) == s_bit)
        (not (bit_and d s_bit == 0) && bit_and d partition_id_mask == 0))
    ≡ true
unfolding holds_below
descriptor_table = refl

-- One masked comparison tests the start bit and the partition id together.
descriptor_test :
    (d : ℕ)
    → d < 256
    → (bit_and d (bit_or s_bit partition_id_mask) == s_bit)
      ≡ (not (bit_and d s_bit == 0) && bit_and d partition_id_mask == 0)
descriptor_test d h = same→eq _ _ (holds_below_at 256 _ d descriptor_table h)

-- A lane of the combined register: all ones where the scalar test passes.
abbrev full : Bool → ℕ
full b = if b then 0xff else 0

keyframe_lanes-simple :
    (ds hs : List ℕ) → All (λ d. d < 256) ds → keyframe_lanes ds hs ≡ map full (simple_tests ds hs)
unfolding keyframe_lanes simple_tests
keyframe_lanes-simple [] hs bytes = refl
keyframe_lanes-simple (d ∷ ds) [] bytes = refl
keyframe_lanes-simple (d ∷ ds) (h ∷ hs) bytes =
    ground (arith, descriptor_test d bytes.0, keyframe_lanes-simple ds hs bytes.1)

movemask-bits : (bs : List Bool) → movemask (map full bs) ≡ bits bs
unfolding movemask
movemask-bits [] = refl
movemask-bits (true ∷ bs) = omega (arith, movemask-bits bs)
movemask-bits (false ∷ bs) = omega (arith, movemask-bits bs)

not_zero-full : (bs : List Bool) → map (λ lane. not (lane == 0)) (map full bs) ≡ bs
not_zero-full [] = refl
not_zero-full (true ∷ bs) = ap (◌∷◌ true) (not_zero-full bs)
not_zero-full (false ∷ bs) = ap (◌∷◌ false) (not_zero-full bs)

mask-bits :
    (target : Target) (ds hs : List ℕ)
    → All (λ d. d < 256) ds
    → simple_keyframe_mask_simd target ds hs ≡ bits (simple_tests ds hs)
unfolding simple_keyframe_mask_simd
mask-bits aarch64 ds hs bytes =
    rw (keyframe_lanes-simple ds hs bytes, not_zero-full (simple_tests ds hs))
      (omega (arith, or_bits-bits 0 0 (simple_tests ds hs)))
mask-bits x86_64 ds hs bytes =
    rw (keyframe_lanes-simple ds hs bytes) (movemask-bits (simple_tests ds hs))
mask-bits portable ds hs bytes = omega (arith, or_bits-bits 0 0 (simple_tests ds hs))

length-simple_tests : (ds hs : List ℕ) → length (simple_tests ds hs) ≤ length ds
unfolding simple_tests
length-simple_tests [] hs = omega arith
length-simple_tests (d ∷ ds) [] = omega arith
length-simple_tests (d ∷ ds) (h ∷ hs) = omega (arith, length-simple_tests ds hs)

-- The vector count over a full batch is the number of lanes that pass the scalar test.
pub keyframe_count-count_true :
    (target : Target) (ds hs : List ℕ)
    → All (λ d. d < 256) ds
    → length ds ≤ 32
    → simple_keyframe_count_simd target ds hs ≡ count_true (simple_tests ds hs)
unfolding simple_keyframe_count_simd
keyframe_count-count_true target ds hs bytes fits =
    rw (mask-bits target ds hs bytes)
      (count_ones-bits 32 (simple_tests ds hs) (omega (arith, length-simple_tests ds hs)))
