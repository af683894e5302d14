-- ===== src/Gate/Maintenance/Routes.antt =====
-- `new` of `ConsumerPacketGateRouteMaintenanceBenchmarkFixture` and the two ways to build a route, in
-- src/consumer_packet_gate.rs.
use o_sfu_benchmarks.Base.{
  ℕ, zero, suc, ◌+◌, ◌≤◌, [], ◌∷◌, ◌++◌, ◌≡◌, refl, sym, ap, ◌∙◌, arith, inl, inr, length,
  length-tabulate, u64_max, get_elem?, Option-cases,
}
use o_sfu_benchmarks.Base.Arrays.{get_elem?-tabulate}
use o_sfu_benchmarks.Base.Map.{get}
use o_sfu_benchmarks.Session.{SessionKeys, MediaIds}
use o_sfu_benchmarks.Gate.Index.{IsIndexed, push-IsIndexed}
use o_sfu_benchmarks.Gate.Reindex.{new-IsIndexed}
use o_sfu_benchmarks.Gate.Defs.{benchmark_destination, benchmark_destinations, media_id_index}
use o_sfu_benchmarks.Gate.Batch.New.{destinations-IsDistinct}
use o_sfu_benchmarks.Gate.Maintenance.{
  new_maintenance, build_rounds, build_current_linear_route, build_media_id_indexed_route,
}
use o_sfu_benchmarks.Gate.Maintenance.Replaced.{IsMaintained, fresh_id}

module _ {Session Media : Type 0} (api : SessionKeys Session) (ids : MediaIds Media) where
  -- The fixture that `new` builds.
  pub new_maintenance-IsMaintained :
      (n : ℕ) → n + 1_000 ≤ u64_max → IsMaintained api ids (new_maintenance api ids n)
  unfolding new_maintenance media_id_index benchmark_destinations
  new_maintenance-IsMaintained n fits = record {
    indexed =
        new-IsIndexed ids.key (λ d. d.media_id) (benchmark_destinations api ids n)
          (destinations-IsDistinct api ids n fits);
    built = λ d there.
        let (below, is) = get_elem?-tabulate (benchmark_destination api ids) n there.0 there.1 in
        (there.0, below, is);
  }

  length-new_maintenance : (n : ℕ) → length (new_maintenance api ids n).destinations ≡ n
  unfolding new_maintenance benchmark_destinations
  length-new_maintenance n = length-tabulate (benchmark_destination api ids) n

  pushed_lem :
      (n : ℕ)
      → n + 1_000 ≤ u64_max
      → ((build_rounds api ids n).0 ≡ (new_maintenance api ids n).destinations)
        × IsIndexed ids.key (λ d. d.media_id) (build_rounds api ids n).0 (build_rounds api ids n).1
  unfolding build_rounds new_maintenance benchmark_destinations
  pushed_lem zero fits =
      (refl, new-IsIndexed ids.key (λ d. d.media_id) [] (λ p q x y h k e. absurd cc))
  pushed_lem (suc n) fits =
      let (same, indexed) = pushed_lem n (omega arith) in
      let (xs, index) = build_rounds api ids n in
      let d = benchmark_destination api ids n in
      (
        ap (λ ys. ys ++ d ∷ []) same,
        push-IsIndexed ids.key (λ x. x.media_id) xs index d indexed
            (elim (Option-cases (get ids.key d.media_id index)) [
              | inl e ↦ e
              | inr (q, e) ↦
                  let (x, at, named) = indexed.found d.media_id q e in
                  absurd (
                    fresh_id api ids (new_maintenance api ids n) x
                      (new_maintenance-IsMaintained n (omega arith)) (omega arith)
                      (q, ap (λ ys. get_elem? ys q) (sym same) ∙ at) named)
            ]),
      )

  -- Below the last media id, the two ways to build a route return the number that was asked for.
  -- Pushing destination by destination builds the list of `new`, and an index that holds the position
  -- of each destination and nothing else, as the one of `new` does.
  pub build_rounds_lem :
      (n : ℕ)
      → n + 1_000 ≤ u64_max
      → (build_current_linear_route api ids n ≡ n)
        × (build_media_id_indexed_route api ids n ≡ n)
        × ((build_rounds api ids n).0 ≡ (new_maintenance api ids n).destinations)
        × IsIndexed ids.key (λ d. d.media_id) (build_rounds api ids n).0 (build_rounds api ids n).1
        × IsIndexed ids.key
            (λ d. d.media_id)
            (new_maintenance api ids n).destinations
            (new_maintenance api ids n).media_id_index
  unfolding build_current_linear_route build_media_id_indexed_route
  build_rounds_lem n fits =
      let (same, indexed) = pushed_lem n fits in
      (
        length-tabulate (benchmark_destination api ids) n,
        ap length same ∙ length-new_maintenance n,
        same,
        indexed,
        (new_maintenance-IsMaintained n fits).indexed,
      )
