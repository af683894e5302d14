-- ===== src/Gate/Batch/New.antt =====
-- `ConsumerPacketGateBatchBenchmarkFixture::new` of src/consumer_packet_gate.rs builds a consistent
-- fixture.
use mathlib.Core.List.{reverse}
use o_sfu_benchmarks.Base.{
  ℕ, ◌+◌, ◌≤◌, List, [], ◌∷◌, ◌≡◌, refl, ap, sym, ◌∙◌, arith, All, u64_max, map,
}
use o_sfu_benchmarks.Base.Arrays.{get_elem?-tabulate}
use o_sfu_benchmarks.Session.{SessionKeys, MediaIds}
use o_sfu_benchmarks.Gate.Reindex.{IsDistinct, new-IsIndexed}
use o_sfu_benchmarks.Gate.Defs.{
  RouteDestination, identity_key, identity_of, benchmark_destination, benchmark_destinations,
  benchmark_updates, update_of, media_id_index, identity_index,
}
use o_sfu_benchmarks.Gate.Batch.{new_batch}
use o_sfu_benchmarks.Gate.Batch.Lookup.{IsUpdate}
use o_sfu_benchmarks.Gate.Batch.Agreement.{IsConsistent}

module _ {Session Media : Type 0} (api : SessionKeys Session) (ids : MediaIds Media) where
  pub destination_media_id :
      (n : ℕ)
      → n + 1_000 ≤ u64_max
      → (benchmark_destination api ids n).media_id ≡ ids.new (1_000 + n)
  unfolding benchmark_destination
  destination_media_id n fits = ap ids.new (omega arith)

  -- The media ids tell the destinations apart.
  pub destinations-IsDistinct :
      (n : ℕ)
      → n + 1_000 ≤ u64_max
      → IsDistinct ids.key (λ d. d.media_id) (benchmark_destinations api ids n)
  unfolding benchmark_destinations
  destinations-IsDistinct n fits p q x y h k e =
      let (p_in, p_is) = get_elem?-tabulate (benchmark_destination api ids) n p h in
      let (q_in, q_is) = get_elem?-tabulate (benchmark_destination api ids) n q k in
      let same = ids.new-injective (1_000 + p) (1_000 + q) (omega arith) (omega arith) (
        sym (destination_media_id p (omega arith))
        ∙ ap (λ d. d.media_id) (sym p_is)
        ∙ e
        ∙ ap (λ d. d.media_id) q_is
        ∙ destination_media_id q (omega arith)) in
      omega (arith, same)

  identities-IsDistinct :
      (n : ℕ)
      → n + 1_000 ≤ u64_max
      → IsDistinct (identity_key api ids) identity_of (benchmark_destinations api ids n)
  identities-IsDistinct n fits p q x y h k e =
      destinations-IsDistinct n fits p q x y h k (ap (λ i. i.media_id) e)

  updates_named :
      (ds : List (RouteDestination Session Media)) → All (IsUpdate api ids) (map update_of ds)
  unfolding update_of
  updates_named [] = tt
  updates_named (d ∷ ds) = (refl, updates_named ds)

  pub new_batch-IsConsistent :
      (n : ℕ) → n + 1_000 ≤ u64_max → IsConsistent api ids (new_batch api ids n)
  unfolding new_batch benchmark_updates media_id_index identity_index
  new_batch-IsConsistent n fits =
      let ds = benchmark_destinations api ids n in
      record {
        indexed = record {
          by_media = new-IsIndexed ids.key (λ d. d.media_id) ds (destinations-IsDistinct n fits);
          by_identity =
              new-IsIndexed (identity_key api ids) identity_of ds (identities-IsDistinct n fits);
        };
        updates = updates_named (reverse ds);
      }
