-- ===== src/Fanout.antt =====
-- src/local_vp8_fanout.rs: one VP8 payload rewritten for each destination, the descriptor parsed
-- again for each of them or once. The parser and the rewriter are those of o-sfu-rfc, parameters.
pub mod Laws
use o_sfu_benchmarks.Base.{
  ℕ, ◌+◌, ◌^◌, ◌%◌, ◌==◌, Option, none, some, List, [], ◌∷◌, ◌++◌, if◌then◌else◌, ltb, length,
  tabulate, saturating_add, saturating_sub,
}

pub record RewriteValue : Type 0 where
  pub picture_id : ℕ
  pub tl0_pic_idx : ℕ

pub record FanoutFixture : Type 0 where
  pub base_payload : List ℕ
  pub shared_payload : List ℕ
  pub rewrite_values : List RewriteValue

unfoldable pub rewrite_value_at : ℕ → RewriteValue
rewrite_value_at index = record { picture_id = index % 32_768; tl0_pic_idx = index % 256 }

unfoldable pub vp8_payload_with_rid_metadata : ℕ → List ℕ
vp8_payload_with_rid_metadata payload_len =
    let start = 0x90 ∷ 0xc0 ∷ 0x80 ∷ 0x31 ∷ 0x05 ∷ 0x00 ∷ [] in
    start
    ++ tabulate (λ index. (length start + index) % 251) (saturating_sub payload_len (length start))

unfoldable pub new : ℕ → FanoutFixture
unfolding rewrite_value_at vp8_payload_with_rid_metadata
new destination_count = record {
  base_payload = vp8_payload_with_rid_metadata 1_200;
  shared_payload = [];
  rewrite_values = tabulate rewrite_value_at destination_count;
}

unfoldable pub destination_count_u64 : FanoutFixture → ℕ
destination_count_u64 f = length f.rewrite_values

unfoldable pub reset_shared_payload : FanoutFixture → FanoutFixture
reset_shared_payload f = record f { shared_payload = f.base_payload }

-- The payload for the destination, and what is left in the shared one: the last destination takes
-- it, every other gets a copy.
unfoldable pub write_payload_for_destination : List ℕ → ℕ → ℕ → List ℕ × List ℕ
write_payload_for_destination shared_payload destination_index destination_count =
    if destination_index + 1 == destination_count
    then (shared_payload, [])
    else (shared_payload, shared_payload)

-- `vp8::payload_descriptor`, and `vp8::rewrite_payload_descriptor` as the payload that it leaves.
module _ {Descriptor : Type 0} (payload_descriptor : List ℕ → Option Descriptor)
    (rewrite_payload_descriptor : List ℕ → Descriptor → ℕ → ℕ → List ℕ) where
  unfoldable pub rewrite_vp8_payload : List ℕ → Descriptor → RewriteValue → List ℕ
  rewrite_vp8_payload payload descriptor rewrite_value =
      rewrite_payload_descriptor payload descriptor rewrite_value.picture_id
        rewrite_value.tl0_pic_idx

  -- The loop over the rewrite values from an index on, with `shared_payload`, `written_bytes` and
  -- `descriptor_count`.
  unfoldable pub current_rounds : ℕ → ℕ → List RewriteValue → List ℕ → ℕ → ℕ → List ℕ × ℕ × ℕ
  current_rounds destination_count index [] shared written descriptors =
      (shared, written, descriptors)
  current_rounds destination_count index (rewrite_value ∷ values) shared written descriptors =
      elim (payload_descriptor shared) [
        | none ↦ current_rounds destination_count (index + 1) values shared written descriptors
        | some descriptor ↦
            let (payload, left) = write_payload_for_destination shared index destination_count in
            let rewritten = rewrite_vp8_payload payload descriptor rewrite_value in
            current_rounds destination_count (index + 1) values left
              (saturating_add written (length rewritten)) (saturating_add descriptors 1)
      ]

  unfoldable pub cached_rounds :
      Option Descriptor → ℕ → ℕ → List RewriteValue → List ℕ → ℕ → ℕ → List ℕ × ℕ × ℕ
  cached_rounds parsed destination_count index [] shared written descriptors =
      (shared, written, descriptors)
  cached_rounds parsed destination_count index (rewrite_value ∷ values) shared written descriptors =
      elim parsed [
        | none ↦
            cached_rounds parsed destination_count (index + 1) values shared written descriptors
        | some descriptor ↦
            let (payload, left) = write_payload_for_destination shared index destination_count in
            let rewritten = rewrite_vp8_payload payload descriptor rewrite_value in
            cached_rounds parsed destination_count (index + 1) values left
              (saturating_add written (length rewritten)) 1
      ]

  -- The fixture afterwards, and the result of the cycle.
  unfoldable pub current_parse_per_destination_cycle : FanoutFixture → FanoutFixture × ℕ
  unfolding reset_shared_payload
  current_parse_per_destination_cycle f =
      let r = reset_shared_payload f in
      let (shared, written, descriptors) =
        current_rounds (length r.rewrite_values) 0 r.rewrite_values r.shared_payload 0 0 in
      (record r { shared_payload = shared }, saturating_add written descriptors)

  unfoldable pub cached_descriptor_cycle : FanoutFixture → FanoutFixture × ℕ
  unfolding reset_shared_payload
  cached_descriptor_cycle f =
      let r = reset_shared_payload f in
      let (shared, written, descriptors) =
        cached_rounds (payload_descriptor r.shared_payload) (length r.rewrite_values) 0
          r.rewrite_values r.shared_payload 0 0 in
      (record r { shared_payload = shared }, saturating_add written descriptors)
