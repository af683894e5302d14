-- ===== src/Simd/Fixture/Payloads.antt =====
-- The H.264 cycle of src/simd_packet_hotpath.rs on the payloads that its fixture builds.
use Prim.Native.Nat.{bit_and}
use mathlib.Core.List.{map-append}
use o_sfu_benchmarks.Base.{
  ℕ, zero, suc, ◌+◌, ◌/◌, ◌%◌, ◌≡◌, refl, ap, ◌∙◌, ◌==◌, Bool, true, false, ◌&&◌, ◌||◌, Option,
  some, List, [], ◌∷◌, ◌++◌, map, any-append, ltb, arith, min, tabulate, saturating_add, u64_max,
  if◌then◌else◌, Bool-cases, Option-cases, inl, inr,
}
use o_sfu_benchmarks.Simd.Vector.{Target}
use o_sfu_benchmarks.Simd.H264.{
  has_idr, nal_unit_type_mask, nal_unit_type_idr, payload_starts_idr_simd,
}
use o_sfu_benchmarks.Simd.H264.Units.{Units, end, unit, verdict}
use o_sfu_benchmarks.Simd.H264.Scan.{stap_a-verdict}
use o_sfu_benchmarks.Simd.Vp8.{from_bool}
use o_sfu_benchmarks.Simd.Fixture.{
  nal_type_at, nal_at, nal_rounds, to_be_bytes, stap_a_payload, h264_payload_at, new_h264,
  detect_loop, h264_simd_cycle, deterministic_byte,
}

masked_type :
    (c : ℕ) (idr : Bool) (i : ℕ)
    → bit_and (nal_type_at c idr i) nal_unit_type_mask ≡ nal_type_at c idr i
unfolding nal_type_at
masked_type c idr i = elim (Bool-cases (idr && i == c / 2)) [
  | inl yes_idr ↦ rw yes_idr refl
  | inr no_idr ↦ rw no_idr refl
]

nal_rounds-Units :
    (c seed : ℕ) (idr : Bool) (is : List ℕ)
    → Units (nal_rounds c seed idr is) (map (nal_type_at c idr) is) true
unfolding nal_rounds to_be_bytes nal_at
nal_rounds-Units c seed idr [] = end
nal_rounds-Units c seed idr (i ∷ is) =
    let byte = λ (k : ℕ). deterministic_byte seed k in
    let rest =
      byte i ∷ byte (saturating_add i 1) ∷ byte (saturating_add i 2) ∷ nal_rounds c seed idr is in
    let us =
      unit 0 4 (nal_type_at c idr i) rest (omega arith) (omega arith)
        (nal_rounds-Units c seed idr is) in
    rw (masked_type c idr i) at us

has_idr-types :
    (c : ℕ) (idr : Bool) (n : ℕ)
    → has_idr (map (nal_type_at c idr) (tabulate (λ i. i) n)) ≡ (idr && ltb (c / 2) n)
unfolding nal_type_at
has_idr-types c idr zero = ground arith
has_idr-types c idr (suc n) =
    let f = nal_type_at c idr in
    let split =
      ap has_idr (map-append f (tabulate (λ i. i) n) (n ∷ []))
      ∙ any-append (λ nal_type. nal_type == nal_unit_type_idr) (map f (tabulate (λ i. i) n))
          (f n ∷ []) in
    rw (split, has_idr-types c idr n) (ground arith)

-- A STAP-A payload of the fixture is found to hold an IDR slice, on every target, exactly if one
-- was asked for and the payload has units at all.
pub scan-stap_a_payload :
    (target : Target) (nal_count seed : ℕ) (include_idr : Bool)
    → payload_starts_idr_simd target (stap_a_payload nal_count seed include_idr)
      ≡ some (include_idr && ltb 0 nal_count)
unfolding payload_starts_idr_simd stap_a_payload verdict
scan-stap_a_payload target c seed idr =
    stap_a-verdict target (nal_rounds-Units c seed idr (tabulate (λ i. i) c))
    ∙ ap some (has_idr-types c idr c ∙ ground arith)

-- The payloads of the fixture that hold an IDR slice: the single slices at the multiples of four,
-- and the STAP-A payloads two behind them, if these have units.
idr_at : ℕ → ℕ → Bool
idr_at nal_count index = index % 4 == 0 || (index % 4 == 2 && ltb 0 nal_count)

scan-h264_payload_at :
    (target : Target) (nal_count index : ℕ)
    → payload_starts_idr_simd target (h264_payload_at nal_count index)
      ≡ some (idr_at nal_count index)
unfolding h264_payload_at idr_at payload_starts_idr_simd
scan-h264_payload_at target n i = elim (Bool-cases (i % 4 == 0)) [
  | inl h ↦ rw h refl
  | inr h ↦ rw h (elim (Bool-cases (i % 4 == 1)) [
    | inl h1 ↦ let h2 : (i % 4 == 2) ≡ false = ground arith in rw (h1, h2) refl
    | inr h1 ↦ rw h1 (scan-stap_a_payload target n i (i % 4 == 2))
  ])
]

detect_loop-append :
    (scan : List ℕ → Option Bool) (payloads : List (List ℕ)) (detected : ℕ) (payload : List ℕ)
    {found : Bool} {before : ℕ}
    → scan payload ≡ some found
    → detect_loop scan detected payloads ≡ some before
    → detect_loop scan detected (payloads ++ payload ∷ [])
      ≡ some (saturating_add before (from_bool found))
unfolding detect_loop
detect_loop-append scan [] detected payload h e = rw h (ground (arith, e))
detect_loop-append scan (p ∷ payloads) detected payload h e = elim (Option-cases (scan p)) [
  | inl stuck ↦ ground (arith, e, stuck)
  | inr (b, going) ↦
      let onward = rw (detect_loop, going) at e in
      rw (detect_loop, going)
        (detect_loop-append scan payloads (saturating_add detected (from_bool b)) payload h onward)
]

-- How many of the first `count` payloads that is.
unfoldable pub idr_payloads : ℕ → ℕ → ℕ
idr_payloads nal_count count = if ltb 0 nal_count then (count + 1) / 2 else (count + 3) / 4

idr_payloads-suc :
    (nal_count count : ℕ)
    → saturating_add
        (min (idr_payloads nal_count count) u64_max)
        (from_bool (idr_at nal_count count))
      ≡ min (idr_payloads nal_count (suc count)) u64_max
unfolding idr_payloads idr_at
idr_payloads-suc n count = ground arith

-- On the fixture that `new` builds the cycle detects every second payload, or every fourth if the
-- STAP-A payloads have no unit, on every target; the count is cut off at the greatest `usize`.
pub new_h264-simd_cycle :
    (target : Target) (payload_count nal_count : ℕ)
    → h264_simd_cycle target (new_h264 payload_count nal_count)
      ≡ some (min (idr_payloads nal_count payload_count) u64_max)
unfolding h264_simd_cycle new_h264 detect_loop idr_payloads
new_h264-simd_cycle target zero n = ground arith
new_h264-simd_cycle target (suc count) n =
    detect_loop-append (payload_starts_idr_simd target) (tabulate (h264_payload_at n) count) 0
      (h264_payload_at n count) (scan-h264_payload_at target n count)
      (new_h264-simd_cycle target count n)
    ∙ ap some (idr_payloads-suc n count)
