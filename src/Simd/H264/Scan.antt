-- ===== src/Simd/H264/Scan.antt =====
-- The scanner of src/simd_packet_hotpath.rs against the units of the payload.
use Prim.Native.Nat.{bit_and}
use native.Mathlib.Nat.{le_refl}
use mathlib.Core.List.{append_assoc, append-nil}
use o_sfu_benchmarks.Base.{
  ℕ, zero, suc, ◌+◌, ◌*◌, ◌/◌, ◌≤◌, ◌<◌, ◌⊎◌, inl, inr, ltb, ◌≡◌, refl, sym, ap, ◌∙◌, Bool, true,
  false, not, ◌==◌, List, [], ◌∷◌, ◌++◌, any, length, length-append, length-drop, take, take_all,
  take-set, length-set, drop, set, arith, some, replicate, saturating_add, dec_lt,
}
use o_sfu_benchmarks.Simd.Vector.{Target, aarch64, x86_64, portable, cmpeq_byte, max_lane, movemask}
use o_sfu_benchmarks.Simd.H264.{
  is_malformed, last_group, simd_any_eq_u8x16, stap_a_loop, stap_a_contains_idr_simd,
}
use o_sfu_benchmarks.Simd.H264.Units.{
  Units, end, end_odd, malformed, unit, verdict, units_of, verdict-group, holds_idr,
}

any-max_lane :
    (needle : ℕ) (values : List ℕ)
    → not (max_lane (cmpeq_byte needle values) == 0) ≡ any (λ value. value == needle) values
unfolding max_lane cmpeq_byte
any-max_lane needle [] = refl
any-max_lane needle (v ∷ values) = ground (arith, any-max_lane needle values)

any-movemask :
    (needle : ℕ) (values : List ℕ)
    → not (movemask (cmpeq_byte needle values) == 0) ≡ any (λ value. value == needle) values
unfolding movemask cmpeq_byte
any-movemask needle [] = refl
any-movemask needle (v ∷ values) = ground (arith, any-movemask needle values)

-- The vector comparison finds the needle exactly if a lane holds it.
simd_any_eq-eq-any :
    (target : Target) (values : List ℕ) (needle : ℕ)
    → simd_any_eq_u8x16 target values needle ≡ any (λ value. value == needle) values
unfolding simd_any_eq_u8x16
simd_any_eq-eq-any aarch64 values needle = any-max_lane needle values
simd_any_eq-eq-any x86_64 values needle = any-movemask needle values
simd_any_eq-eq-any portable values needle = refl

verdict-short : (g : List ℕ) → length g < 16 → verdict false g ≡ false
unfolding verdict
verdict-short g h =
    let none_complete : 16 * (length g / 16) ≡ 0 = omega arith in rw none_complete refl

-- The array and the group's types after one more unit.
abbrev written : List ℕ → ℕ → ℕ → List ℕ
written nal_types count header = set nal_types count (bit_and header 0x1f)

abbrev grown : List ℕ → ℕ → List ℕ
grown g header = g ++ bit_and header 0x1f ∷ []

-- Behind the last unit the group so far is judged.
last_group-used :
    (nal_types g : List ℕ) (count : ℕ)
    → count ≤ length nal_types
    → take count nal_types ≡ g
    → last_group nal_types count ≡ some (holds_idr g)
last_group-used nal_types g count room used =
    let inside : ltb (length nal_types) count ≡ false = ground arith in rw (inside, used) refl

bad-is_malformed :
    (size : ℕ) (rest : List ℕ) → (size ≡ 0) ⊎ (length rest < size) → is_malformed size rest ≡ true
bad-is_malformed size rest (inl empty) = ground arith
bad-is_malformed size rest (inr cut) = ground arith

module _ (target : Target) (types : List ℕ) (whole : Bool) (hi lo header : ℕ) (rest : List ℕ)
    (sized : 0 < hi * 256 + lo) (fits : hi * 256 + lo ≤ length (header ∷ rest)) (fuel : ℕ)
    (nal_types g : List ℕ) (count : ℕ) (size : length nal_types ≡ 16) (room : count < 16)
    (used : take count nal_types ≡ g) (len : length g ≡ count) where
  length-written : length (written nal_types count header) ≡ 16
  length-written = length-set nal_types count (bit_and header 0x1f) ∙ size

  length-grown : length (grown g header) ≡ suc count
  length-grown = omega (arith, len, length-append g (bit_and header 0x1f ∷ []))

  written-grown : take (suc count) (written nal_types count header) ≡ grown g header
  written-grown =
      take-set nal_types count (bit_and header 0x1f) (omega arith)
      ∙ ap (λ l. l ++ bit_and header 0x1f ∷ []) used

  grown-types : grown g header ++ types ≡ g ++ bit_and header 0x1f ∷ types
  grown-types = append_assoc g (bit_and header 0x1f ∷ []) types

  good : is_malformed (hi * 256 + lo) (header ∷ rest) ≡ false
  good = ground arith

  inside : ltb count (length nal_types) ≡ true
  inside = ground arith

  in_slice : ltb (length (header ∷ rest)) (hi * 256 + lo) ≡ false
  in_slice = ground arith

  -- A unit that leaves the group incomplete.
  step_same :
      count < 15
      → stap_a_loop target fuel
          (drop (hi * 256 + lo) (header ∷ rest))
          (written nal_types count header)
          (suc count)
        ≡ some (verdict whole (grown g header ++ types))
      → stap_a_loop target (suc fuel) (hi ∷ lo ∷ header ∷ rest) nal_types count
        ≡ some (verdict whole (g ++ bit_and header 0x1f ∷ types))
  unfolding stap_a_loop
  step_same below ih =
      let next : saturating_add count 1 ≡ suc count = omega arith in
      let open_group : (suc count == length (written nal_types count header)) ≡ false =
        ground (arith, length-written) in
      rw (good, inside, next, open_group, in_slice, ih, grown-types) refl

  -- The unit that completes the group.
  step_next :
      count ≡ 15
      → stap_a_loop target fuel
          (drop (hi * 256 + lo) (header ∷ rest))
          (written nal_types count header)
          0
        ≡ some (verdict whole types)
      → stap_a_loop target (suc fuel) (hi ∷ lo ∷ header ∷ rest) nal_types count
        ≡ some (verdict whole (g ++ bit_and header 0x1f ∷ types))
  unfolding stap_a_loop
  step_next last ih =
      let full_group : (saturating_add count 1 == length (written nal_types count header)) ≡ true =
        ground (arith, length-written) in
      let all_written : written nal_types count header ≡ grown g header =
        sym (take_all (suc count) (written nal_types count header) (omega (arith, length-written)))
        ∙ written-grown in
      let judged = verdict-group whole (grown g header) types (omega (arith, length-grown)) in
      rw (good, inside, full_group, in_slice, ih, simd_any_eq-eq-any, all_written, ← grown-types)
        (ground (arith, judged))

-- The loop, where the first `count` slots hold the types `g` of the group so far: it returns the
-- verdict on `g` and the units to come.
stap_a_loop-verdict :
    (target : Target) (fuel : ℕ) {payload types : List ℕ} {whole : Bool}
    (us : Units payload types whole) (nal_types g : List ℕ) (count : ℕ)
    → length payload < fuel
    → length nal_types ≡ 16
    → count < 16
    → take count nal_types ≡ g
    → length g ≡ count
    → stap_a_loop target fuel payload nal_types count ≡ some (verdict whole (g ++ types))
stap_a_loop-verdict target zero us nal_types g count fuel_ok size room used len =
    absurd (omega arith)
stap_a_loop-verdict target (suc fuel) end nal_types g count fuel_ok size room used len =
    unfold stap_a_loop verdict in
    rw (append-nil g) (last_group-used nal_types g count (omega arith) used)
stap_a_loop-verdict target (suc fuel) (end_odd x) nal_types g count fuel_ok size room used len =
    unfold stap_a_loop verdict in
    rw (append-nil g) (last_group-used nal_types g count (omega arith) used)
stap_a_loop-verdict target (suc fuel) (malformed hi lo rest fault) nal_types g count fuel_ok size
      room used len =
    let bad = bad-is_malformed (hi * 256 + lo) rest fault in
    unfold stap_a_loop in rw (bad, append-nil g, verdict-short g (omega arith)) refl
stap_a_loop-verdict target (suc fuel) (unit hi lo header rest {types} {whole} sized fits us)
      nal_types g count fuel_ok size room used len =
    let size_of = hi * 256 + lo in
    let shorter : length (drop size_of (header ∷ rest)) < fuel =
      omega (arith, length-drop size_of (header ∷ rest)) in
    let array_size =
      length-written target types whole hi lo header rest sized fits fuel nal_types g count size
        room used len in
    elim (dec_lt count 15) [
      | yes below ↦
          step_same target types whole hi lo header rest sized fits fuel nal_types g count size room
            used len below
            (stap_a_loop-verdict target fuel us (written nal_types count header) (grown g header)
              (suc count) shorter array_size (omega arith)
              (written-grown target types whole hi lo header rest sized fits fuel nal_types g count
                size room used len)
              (length-grown target types whole hi lo header rest sized fits fuel nal_types g count
                size room used len))
      | no full ↦
          step_next target types whole hi lo header rest sized fits fuel nal_types g count size room
            used len (omega arith)
            (stap_a_loop-verdict target fuel us (written nal_types count header) [] 0 shorter
              array_size (omega arith) refl refl)
    ]

-- On a payload that reads as units of these types the scanner returns the verdict on them, on
-- every target: on a whole payload, whether some unit is an IDR slice, and on a malformed one,
-- whether a complete group of 16 units before the fault holds one.
pub stap_a-verdict :
    (target : Target) {payload types : List ℕ} {whole : Bool}
    → Units payload types whole
    → stap_a_contains_idr_simd target payload ≡ some (verdict whole types)
unfolding stap_a_contains_idr_simd
stap_a-verdict target {payload} us =
    stap_a_loop-verdict target (suc (length payload)) us (replicate 16 0) [] 0 (le_refl _) refl
      (omega arith) refl refl

-- The scanner returns an answer on every payload, and the same one on every target: the loop ends,
-- and no index or slice of it is out of range.
pub stap_a_total :
    (target : Target) (payload : List ℕ)
    → (found : Bool) × (stap_a_contains_idr_simd target payload ≡ some found)
      × (stap_a_contains_idr_simd portable payload ≡ some found)
stap_a_total target payload =
    let (types, whole, us) = units_of payload in
    (verdict whole types, stap_a-verdict target us, stap_a-verdict portable us)
