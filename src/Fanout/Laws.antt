-- ===== src/Fanout/Laws.antt =====
-- What the two cycles of src/local_vp8_fanout.rs return and leave behind.
use o_sfu_benchmarks.Base.{
  ℕ, ◌+◌, ◌*◌, ◌≤◌, ◌==◌, ◌≡◌, refl, sym, ap, ◌∙◌, arith, Option, some, List, [], ◌∷◌,
  if◌then◌else◌, length, min, saturating_add, u64_max, true, false, Bool-cases, inl, inr,
}
use o_sfu_benchmarks.Fanout.{
  RewriteValue, FanoutFixture, write_payload_for_destination, rewrite_vp8_payload, current_rounds,
  cached_rounds, current_parse_per_destination_cycle, cached_descriptor_cycle, reset_shared_payload,
}

-- A loop that rewrites a payload of `len` bytes for `count` destinations ends like this.
record Ends (len count start : ℕ) (base : List ℕ) (parsed : ℕ) (r : List ℕ × ℕ × ℕ) : Type 0 where
  left : r.0 ≡ (if count == 0 then base else [])
  written : r.1 ≡ min (start + count * len) u64_max
  counted : r.2 ≡ parsed

module _ {Descriptor : Type 0} (payload_descriptor : List ℕ → Option Descriptor)
    (rewrite_payload_descriptor : List ℕ → Descriptor → ℕ → ℕ → List ℕ)
    (same_length : (payload : List ℕ) (d : Descriptor) (p t : ℕ)
      → length (rewrite_payload_descriptor payload d p t) ≡ length payload) where
  -- The last destination takes the payload, and every other leaves it.
  current_step :
      (n : ℕ) (v : RewriteValue) (values : List RewriteValue) (i : ℕ) (base : List ℕ)
      {d : Descriptor} (w c : ℕ)
      → payload_descriptor base ≡ some d
      → current_rounds payload_descriptor rewrite_payload_descriptor n i (v ∷ values) base w c
        ≡ current_rounds payload_descriptor rewrite_payload_descriptor n
            (i + 1)
            values
            (if i + 1 == n then [] else base)
            (saturating_add w (length base))
            (saturating_add c 1)
  unfolding current_rounds write_payload_for_destination rewrite_vp8_payload
  current_step n v values i base {d} w c e =
      let len = same_length base d v.picture_id v.tl0_pic_idx in
      elim (Bool-cases (i + 1 == n)) [
        | inl last ↦ rw (current_rounds, e, last, len) refl
        | inr more ↦ rw (current_rounds, e, more, len) refl
      ]

  current_rounds-Ends :
      (n : ℕ) (values : List RewriteValue) (i : ℕ) (base : List ℕ) {d : Descriptor} (w c : ℕ)
      → payload_descriptor base ≡ some d
      → i + length values ≡ n
      → w ≤ u64_max
      → c ≤ u64_max
      → Ends
          (length base)
          (length values)
          w
          base
          (min (c + length values) u64_max)
          (current_rounds payload_descriptor rewrite_payload_descriptor n i values base w c)
  unfolding current_rounds
  current_rounds-Ends n [] i base w c e h p q = record {
    left = refl;
    written = omega arith;
    counted = omega arith;
  }
  current_rounds-Ends n (v ∷ []) i base w c e h p q =
      let last : (i + 1 == n) ≡ true = ground arith in
      rw (current_step n v [] i base w c e, last)
        (record { left = refl; written = omega arith; counted = omega arith })
  current_rounds-Ends n (v ∷ v' ∷ values) i base w c e h p q =
      let more : (i + 1 == n) ≡ false = ground arith in
      let rest =
        current_rounds-Ends n (v' ∷ values) (i + 1) base (saturating_add w (length base))
          (saturating_add c 1) e (omega arith) (omega arith) (omega arith) in
      rw (current_step n v (v' ∷ values) i base w c e, more)
        (record {
          left = rest.left ∙ ground arith;
          written = omega (arith, rest.written);
          counted = omega (arith, rest.counted);
        })

  cached_step :
      (n : ℕ) (v : RewriteValue) (values : List RewriteValue) (i : ℕ) (base : List ℕ)
      (d : Descriptor) (w c : ℕ)
      → cached_rounds payload_descriptor rewrite_payload_descriptor
          (some d)
          n
          i
          (v ∷ values)
          base
          w
          c
        ≡ cached_rounds payload_descriptor rewrite_payload_descriptor
            (some d)
            n
            (i + 1)
            values
            (if i + 1 == n then [] else base)
            (saturating_add w (length base))
            1
  unfolding cached_rounds write_payload_for_destination rewrite_vp8_payload
  cached_step n v values i base d w c =
      let len = same_length base d v.picture_id v.tl0_pic_idx in
      elim (Bool-cases (i + 1 == n)) [
        | inl last ↦ rw (cached_rounds, last, len) refl
        | inr more ↦ rw (cached_rounds, more, len) refl
      ]

  cached_rounds-Ends :
      (n : ℕ) (values : List RewriteValue) (i : ℕ) (base : List ℕ) (d : Descriptor) (w c : ℕ)
      → i + length values ≡ n
      → w ≤ u64_max
      → Ends
          (length base)
          (length values)
          w
          base
          (if length values == 0 then c else 1)
          (cached_rounds payload_descriptor rewrite_payload_descriptor (some d) n i values base w c)
  unfolding cached_rounds
  cached_rounds-Ends n [] i base d w c h p = record {
    left = refl;
    written = omega arith;
    counted = refl;
  }
  cached_rounds-Ends n (v ∷ []) i base d w c h p =
      let last : (i + 1 == n) ≡ true = ground arith in
      rw (cached_step n v [] i base d w c, last)
        (record { left = refl; written = omega arith; counted = refl })
  cached_rounds-Ends n (v ∷ v' ∷ values) i base d w c h p =
      let more : (i + 1 == n) ≡ false = ground arith in
      let rest =
        cached_rounds-Ends n (v' ∷ values) (i + 1) base d (saturating_add w (length base)) 1
          (omega arith) (omega arith) in
      rw (cached_step n v (v' ∷ values) i base d w c, more)
        (record {
          left = rest.left ∙ ground arith;
          written = omega (arith, rest.written);
          counted = rest.counted ∙ ground arith;
        })

  -- Where the payload has a descriptor, and rewriting keeps the length of a payload, both cycles
  -- write a payload for each destination and leave the same state. The first counts a parsed
  -- descriptor for each destination too, and the second at most one; the sums are cut off at the
  -- greatest `usize`.
  pub fanout_cycles_lem :
      (f : FanoutFixture) {d : Descriptor}
      → payload_descriptor f.base_payload ≡ some d
      → let n = length f.rewrite_values in
        let bytes = min (n * length f.base_payload) u64_max in
        let current =
          current_parse_per_destination_cycle payload_descriptor rewrite_payload_descriptor f in
        let cached = cached_descriptor_cycle payload_descriptor rewrite_payload_descriptor f in
        (current.1 ≡ saturating_add bytes (min n u64_max))
        × (cached.1 ≡ saturating_add bytes (min n 1))
        × (current.0 ≡ cached.0)
  unfolding current_parse_per_destination_cycle cached_descriptor_cycle reset_shared_payload
  fanout_cycles_lem f {d} e =
      let n = length f.rewrite_values in
      let current =
        current_rounds-Ends n f.rewrite_values 0 f.base_payload 0 0 e (omega arith) (omega arith)
          (omega arith) in
      let cached =
        cached_rounds-Ends n f.rewrite_values 0 f.base_payload d 0 0 (omega arith) (omega arith) in
      (
        omega (arith, current.written, current.counted),
        rw e (ground (arith, cached.written, cached.counted)),
        rw e (ap (λ shared. record f { shared_payload = shared }) (current.left ∙ sym cached.left)),
      )
