-- ===== src/Tests/Fanout.antt =====
-- src/local_vp8_fanout.rs: tests and instances, with a parser that only looks for the X bit and a
-- rewriter that sets the third byte.
use o_sfu_benchmarks.Base.{
  ℕ, ◌*◌, ◌≡◌, refl, Option, none, some, List, [], ◌∷◌, length, min, saturating_add, u64_max, leb,
  if◌then◌else◌,
}
use o_sfu_benchmarks.Fanout.{
  current_rounds, write_payload_for_destination, rewrite_vp8_payload, new, FanoutFixture,
  current_parse_per_destination_cycle, cached_descriptor_cycle,
}
use o_sfu_benchmarks.Fanout.Laws.{fanout_cycles_lem}

abbrev parse : List ℕ → Option ℕ
parse [] = none
parse (byte ∷ payload) = if leb 0x80 byte then some 2 else none

abbrev rewrite : List ℕ → ℕ → ℕ → ℕ → List ℕ
rewrite (a ∷ b ∷ c ∷ payload) offset picture_id tl0_pic_idx = a ∷ b ∷ tl0_pic_idx ∷ payload
rewrite payload offset picture_id tl0_pic_idx = payload

rewrite-length : (payload : List ℕ) (d p t : ℕ) → length (rewrite payload d p t) ≡ length payload
rewrite-length [] d p t = refl
rewrite-length (a ∷ []) d p t = refl
rewrite-length (a ∷ b ∷ []) d p t = refl
rewrite-length (a ∷ b ∷ c ∷ payload) d p t = refl

abbrev short_fixture : List ℕ → FanoutFixture
short_fixture payload = record (new 3) { base_payload = payload }

three_destinations :
    (current_parse_per_destination_cycle parse rewrite (short_fixture (0x90 ∷ 1 ∷ 2 ∷ 3 ∷ []))).1
    ≡ 15
unfolding current_parse_per_destination_cycle new current_rounds write_payload_for_destination
    rewrite_vp8_payload
three_destinations = refl

fanout_cycles_lem_example :
    let f = short_fixture (0x90 ∷ 1 ∷ 2 ∷ 3 ∷ []) in
    let n = length f.rewrite_values in
    let bytes = min (n * length f.base_payload) u64_max in
    let current = current_parse_per_destination_cycle parse rewrite f in
    let cached = cached_descriptor_cycle parse rewrite f in
    (current.1 ≡ saturating_add bytes (min n u64_max))
    × (cached.1 ≡ saturating_add bytes (min n 1))
    × (current.0 ≡ cached.0)
fanout_cycles_lem_example =
    fanout_cycles_lem parse rewrite rewrite-length (short_fixture (0x90 ∷ 1 ∷ 2 ∷ 3 ∷ [])) refl
