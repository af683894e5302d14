-- ===== src/Simd/H264/Units.antt =====
-- What a STAP-A payload holds, with no vectors and no groups: the specification of the scanner of
-- src/simd_packet_hotpath.rs.
use Prim.Native.Nat.{bit_and}
use o_sfu_benchmarks.Base.{
  ℕ, zero, suc, ◌+◌, ◌*◌, ◌/◌, ◌≤◌, ◌<◌, ◌==◌, ◌≡◌, ◌⊎◌, ap, ◌∙◌, Bool, true, false, ◌||◌, List, [],
  ◌∷◌, ◌++◌, if◌then◌else◌, any, any-append, length, length-append, length-drop, take,
  take-append_add, drop, arith, inl, inr, ℕ_discrete, dec_lt,
}

-- `Units payload types whole`: reading unit by unit meets units of these types and then the end
-- (`whole` is true; a last single byte is not read) or a malformed unit (`whole` is false). A unit is
-- a size of two bytes, the high one first, and so many bytes, of which the first one holds the type in
-- its five low bits. It is malformed if the size is zero or more bytes than are left.
pub data Units : List ℕ → List ℕ → Bool → Type 0 where
  end : Units [] [] true
  end_odd : (x : ℕ) → Units (x ∷ []) [] true
  malformed :
      (hi lo : ℕ) (rest : List ℕ)
      → (hi * 256 + lo ≡ 0) ⊎ (length rest < hi * 256 + lo)
      → Units (hi ∷ lo ∷ rest) [] false
  unit :
      (hi lo header : ℕ) (rest : List ℕ) {types : List ℕ} {whole : Bool}
      → 0 < hi * 256 + lo
      → hi * 256 + lo ≤ length (header ∷ rest)
      → Units (drop (hi * 256 + lo) (header ∷ rest)) types whole
      → Units (hi ∷ lo ∷ header ∷ rest) (bit_and header 0x1f ∷ types) whole

-- Some unit has the type 5 of an IDR slice.
abbrev pub holds_idr : List ℕ → Bool
holds_idr = any (λ nal_type. nal_type == 5)

-- The verdict: on a whole payload, whether a unit is an IDR slice; on a malformed one, whether
-- one of the complete groups of 16 units before the fault holds an IDR slice.
unfoldable pub verdict : Bool → List ℕ → Bool
verdict whole types = holds_idr (if whole then types else take (16 * (length types / 16)) types)

units_below :
    (n : ℕ) (payload : List ℕ)
    → length payload ≤ n
    → (types : List ℕ) × (whole : Bool) × Units payload types whole
units_below n [] h = ([], true, end)
units_below n (x ∷ []) h = ([], true, end_odd x)
units_below zero (hi ∷ lo ∷ rest) h = absurd (omega arith)
units_below (suc n) (hi ∷ lo ∷ []) h = elim (ℕ_discrete (hi * 256 + lo) 0) [
  | yes empty ↦ ([], false, malformed hi lo [] (inl empty))
  | no sized ↦ ([], false, malformed hi lo [] (inr (omega (arith, sized))))
]
units_below (suc n) (hi ∷ lo ∷ header ∷ rest) h =
    let size = hi * 256 + lo in
    elim (ℕ_discrete size 0) [
      | yes empty ↦ ([], false, malformed hi lo (header ∷ rest) (inl empty))
      | no sized ↦ elim (dec_lt (length (header ∷ rest)) size) [
        | yes cut ↦ ([], false, malformed hi lo (header ∷ rest) (inr cut))
        | no fits ↦
            let (types, whole, us) =
              units_below n (drop size (header ∷ rest))
                (omega (arith, length-drop size (header ∷ rest))) in
            (
              bit_and header 0x1f ∷ types,
              whole,
              unit hi lo header rest (omega (arith, sized)) (omega (arith, fits)) us,
            )
      ]
    ]

-- Every payload reads as some sequence of units.
pub units_of : (payload : List ℕ) → (types : List ℕ) × (whole : Bool) × Units payload types whole
units_of payload = units_below (length payload) payload (omega arith)

-- A complete group of 16 units is judged by itself.
pub verdict-group :
    (whole : Bool) (g ts : List ℕ)
    → length g ≡ 16
    → verdict whole (g ++ ts) ≡ (holds_idr g || verdict whole ts)
unfolding verdict
verdict-group true g ts h = any-append _ g ts
verdict-group false g ts h =
    ap holds_idr
      (take-append_add g ts (16 * (length ts / 16)) _ (omega (arith, h, length-append g ts)))
    ∙ any-append _ g (take (16 * (length ts / 16)) ts)
