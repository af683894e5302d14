-- ===== src/Simd/Vp8/Batch.antt =====
-- The batched VP8 scanner of src/simd_packet_hotpath.rs against the bits it stands for.
use Prim.Native.Nat.{bit_and}
use o_sfu_benchmarks.Base.Bits.{holds_below, holds_below_at}
use o_sfu_benchmarks.Base.{
  ℕ, zero, suc, ◌+◌, ◌/◌, ◌%◌, not, ◌&&◌, if◌then◌else◌, ◌≤◌, ◌<◌, ◌≡◌, refl, sym, ap, ap₂, ◌∙◌,
  ◌==◌, Bool, true, false, List, [], ◌∷◌, length, take, take_all, set, length-set, get_or,
  replicate, arith, All, min, saturating_add, u64_max, Bool-cases, inl, inr, dec_lt,
}
use o_sfu_benchmarks.Simd.Vector.{Target}
use o_sfu_benchmarks.Simd.Vp8.{
  x_bit, s_bit, partition_id_mask, interframe_bit, simple_payload_starts_keyframe, simple_tests,
  simple_keyframe_count_simd, from_bool, tail_rounds, batch_loop,
  payload_starts_keyframe_simd_batch,
}
use o_sfu_benchmarks.Simd.Vp8.Lanes.{same, same→eq, count_true, keyframe_count-count_true}

-- Eight bytes, as the fixture's payloads are.
abbrev pub IsPayload : List ℕ → Type 0
IsPayload payload = (length payload ≡ 8) × All (λ byte. byte < 256) payload

-- How many of the payloads the scanner accepts.
unfoldable pub keyframes : (List ℕ → Bool) → List (List ℕ) → ℕ
keyframes scan [] = 0
keyframes scan (payload ∷ payloads) = from_bool (scan payload) + keyframes scan payloads

-- The start bit is set, the four bits below it are clear, and so is the lowest bit of the header.
unfoldable pub plain_keyframe : ℕ → ℕ → Bool
plain_keyframe descriptor header =
    descriptor / 16 % 2 == 1 && descriptor % 16 == 0 && header % 2 == 0

-- A payload with the X bit is for the scanner, any other is judged by its first two bytes.
unfoldable pub judged : (List ℕ → Bool) → List ℕ → Bool
judged scan payload =
    if get_or payload 0 0 / 128 % 2 == 0
    then plain_keyframe (get_or payload 0 0) (get_or payload 1 0)
    else scan payload

-- The keyframes among the first `n` lanes of the batch.
unfoldable pending : ℕ → List ℕ → List ℕ → ℕ
unfolding simple_tests
pending n ds hs = count_true (simple_tests (take n ds) (take n hs))

pending_none : (ds hs : List ℕ) → pending 0 ds hs ≡ 0
unfolding pending
pending_none ds hs = refl

pending-suc :
    (n : ℕ) (ds hs : List ℕ)
    → n < length ds
    → n < length hs
    → pending (suc n) ds hs
      ≡ pending n ds hs + from_bool (simple_payload_starts_keyframe (get_or ds n 0) (get_or hs n 0))
unfolding pending
pending-suc n [] hs p q = absurd (omega arith)
pending-suc n (d ∷ ds) [] p q = absurd (omega arith)
pending-suc zero (d ∷ ds) (h ∷ hs) p q = omega arith
pending-suc (suc n) (d ∷ ds) (h ∷ hs) p q =
    omega (arith, pending-suc n ds hs (omega arith) (omega arith))

pending-set :
    (n : ℕ) (ds hs : List ℕ) (d h : ℕ)
    → n < length ds
    → n < length hs
    → pending (suc n) (set ds n d) (set hs n h)
      ≡ pending n ds hs + from_bool (simple_payload_starts_keyframe d h)
unfolding pending
pending-set n [] hs d h p q = absurd (omega arith)
pending-set n (x ∷ ds) [] d h p q = absurd (omega arith)
pending-set zero (x ∷ ds) (y ∷ hs) d h p q = omega arith
pending-set (suc n) (x ∷ ds) (y ∷ hs) d h p q =
    omega (arith, pending-set n ds hs d h (omega arith) (omega arith))

tail_rounds-pending :
    (n : ℕ) (ds hs : List ℕ) (detected : ℕ)
    → n ≤ length ds
    → n ≤ length hs
    → detected ≤ u64_max
    → tail_rounds ds hs detected n ≡ min (detected + pending n ds hs) u64_max
unfolding tail_rounds
tail_rounds-pending zero ds hs detected p q fits = unfold pending in omega arith
tail_rounds-pending (suc n) ds hs detected p q fits = omega (
  arith,
  tail_rounds-pending n ds hs detected (omega arith) (omega arith) fits,
  pending-suc n ds hs (omega arith) (omega arith),
)

All-set :
    (n : ℕ) (ds : List ℕ) (d : ℕ)
    → d < 256
    → All (λ x. x < 256) ds
    → All (λ x. x < 256) (set ds n d)
All-set n [] d h all = tt
All-set zero (x ∷ ds) d h all = (h, all.1)
All-set (suc n) (x ∷ ds) d h all = (all.0, All-set n ds d h all.1)

first_byte : (payload : List ℕ) → IsPayload payload → get_or payload 0 0 < 256
first_byte [] h = omega arith
first_byte (x ∷ payload) h = h.1.0

second_byte : (payload : List ℕ) → IsPayload payload → get_or payload 1 0 < 256
second_byte [] h = omega arith
second_byte (x ∷ []) h = omega arith
second_byte (x ∷ y ∷ payload) h = h.1.1.0

x_bit_table : holds_below 256 (λ d. same (bit_and d x_bit == 0) (d / 128 % 2 == 0)) ≡ true
unfolding holds_below
x_bit_table = refl

x_bit_test : (d : ℕ) → d < 256 → (bit_and d x_bit == 0) ≡ (d / 128 % 2 == 0)
x_bit_test d h = same→eq _ _ (holds_below_at 256 _ d x_bit_table h)

descriptor_bits_table :
    holds_below 256 (λ d.
      same
        (not (bit_and d s_bit == 0) && bit_and d partition_id_mask == 0)
        (d / 16 % 2 == 1 && d % 16 == 0))
    ≡ true
unfolding holds_below
descriptor_bits_table = refl

header_table : holds_below 256 (λ h. same (bit_and h interframe_bit == 0) (h % 2 == 0)) ≡ true
unfolding holds_below
header_table = refl

descriptor_bits :
    (d : ℕ)
    → d < 256
    → (not (bit_and d s_bit == 0) && bit_and d partition_id_mask == 0)
      ≡ (d / 16 % 2 == 1 && d % 16 == 0)
descriptor_bits d p = same→eq _ _ (holds_below_at 256 _ d descriptor_bits_table p)

header_bit : (h : ℕ) → h < 256 → (bit_and h interframe_bit == 0) ≡ (h % 2 == 0)
header_bit h p = same→eq _ _ (holds_below_at 256 _ h header_table p)

-- The masks of the code test these bits.
simple-eq-plain :
    (d h : ℕ) → d < 256 → h < 256 → simple_payload_starts_keyframe d h ≡ plain_keyframe d h
unfolding simple_payload_starts_keyframe plain_keyframe
simple-eq-plain d h p q = ground (arith, descriptor_bits d p, header_bit h q)

judged-plain :
    (scan : List ℕ → Bool) (payload : List ℕ)
    → IsPayload payload
    → (bit_and (get_or payload 0 0) x_bit == 0) ≡ true
    → judged scan payload ≡ simple_payload_starts_keyframe (get_or payload 0 0) (get_or payload 1 0)
unfolding judged
judged-plain scan payload ok plain =
    let d = get_or payload 0 0 in
    rw (sym (x_bit_test d (first_byte payload ok)) ∙ plain) (
      sym (simple-eq-plain d (get_or payload 1 0) (first_byte payload ok) (second_byte payload ok)))

judged-extended :
    (scan : List ℕ → Bool) (payload : List ℕ)
    → IsPayload payload
    → (bit_and (get_or payload 0 0) x_bit == 0) ≡ false
    → judged scan payload ≡ scan payload
unfolding judged
judged-extended scan payload ok extended =
    rw (sym (x_bit_test (get_or payload 0 0) (first_byte payload ok)) ∙ extended) refl

module _ (target : Target) (scan : List ℕ → Bool) where
  -- A full batch of 16 lanes is counted by the vector code.
  flush :
      (ds hs : List ℕ)
      → length ds ≡ 16
      → length hs ≡ 16
      → All (λ d. d < 256) ds
      → simple_keyframe_count_simd target ds hs ≡ pending 16 ds hs
  unfolding pending
  flush ds hs p q bytes =
      keyframe_count-count_true target ds hs bytes (omega arith)
      ∙ ap₂ (λ xs ys. count_true (simple_tests xs ys)) (sym (take_all 16 ds (omega arith)))
          (sym (take_all 16 hs (omega arith)))

  batch_loop-keyframes :
      (payloads : List (List ℕ)) (ds hs : List ℕ) (n detected : ℕ)
      → All IsPayload payloads
      → length ds ≡ 16
      → length hs ≡ 16
      → n < 16
      → detected ≤ u64_max
      → All (λ d. d < 256) ds
      → batch_loop target scan payloads ds hs n detected
        ≡ min (detected + pending n ds hs + keyframes (judged scan) payloads) u64_max
  unfolding batch_loop keyframes
  batch_loop-keyframes [] ds hs n detected ps p q room fits bytes =
      omega (arith, tail_rounds-pending n ds hs detected (omega arith) (omega arith) fits)
  batch_loop-keyframes (payload ∷ payloads) ds hs n detected ps p q room fits bytes =
      elim (Bool-cases (bit_and (get_or payload 0 0) x_bit == 0)) [
        | inr extended ↦
            rw (extended, judged-extended scan payload ps.0 extended)
              (omega (
                arith,
                batch_loop-keyframes payloads ds hs n
                    (saturating_add detected (from_bool (scan payload))) ps.1 p q room (omega arith)
                    bytes,
              ))
        | inl plain ↦
            let d = get_or payload 0 0 in
            let h = get_or payload 1 0 in
            let ds' = set ds n d in
            let hs' = set hs n h in
            let p' : length ds' ≡ 16 = length-set ds n d ∙ p in
            let q' : length hs' ≡ 16 = length-set hs n h ∙ q in
            let bytes' = All-set n ds d (first_byte payload ps.0) bytes in
            let grown = pending-set n ds hs d h (omega arith) (omega arith) in
            let next : saturating_add n 1 ≡ suc n = omega arith in
            elim (dec_lt n 15) [
              | yes below ↦
                  let open_batch : (suc n == length ds') ≡ false = ground (arith, p') in
                  rw (plain, next, open_batch, judged-plain scan payload ps.0 plain)
                    (omega (
                      arith,
                      grown,
                      batch_loop-keyframes payloads ds' hs' (suc n) detected ps.1 p' q'
                          (omega arith) fits bytes',
                    ))
              | no full ↦
                  let full_batch : (saturating_add n 1 == length ds') ≡ true = ground (arith, p') in
                  let last : suc n ≡ 16 = omega arith in
                  rw
                    (
                      plain,
                      full_batch,
                      judged-plain scan payload ps.0 plain,
                      flush ds' hs' p' q' bytes',
                    )
                    (omega (
                      arith,
                      grown,
                      ap (λ k. pending k ds' hs') last,
                      pending_none ds' hs',
                      batch_loop-keyframes payloads ds' hs' 0
                          (saturating_add detected (pending 16 ds' hs')) ps.1 p' q' (omega arith)
                          (omega arith) bytes',
                    ))
            ]
      ]

  -- On payloads of eight bytes, whatever the scalar scanner is, the batched scanner counts, up to
  -- the greatest `usize` and on every target, those with the X bit (bit 7 of the first byte) that the
  -- scalar scanner accepts, and those without it that have bit 4 of the first byte set, its low four
  -- bits clear, and the lowest bit of the second byte clear.
  pub simd_batch-keyframes :
      (payloads : List (List ℕ))
      → All IsPayload payloads
      → payload_starts_keyframe_simd_batch target scan payloads
        ≡ min (keyframes (judged scan) payloads) u64_max
  unfolding payload_starts_keyframe_simd_batch
  simd_batch-keyframes payloads ps = omega (
    arith,
    pending_none (replicate 16 0) (replicate 16 0),
    batch_loop-keyframes payloads (replicate 16 0) (replicate 16 0) 0 0 ps refl refl (omega arith)
        (omega arith) (omega arith),
  )
