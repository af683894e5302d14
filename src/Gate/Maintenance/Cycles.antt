-- ===== src/Gate/Maintenance/Cycles.antt =====
-- The three cycles of `ConsumerPacketGateRouteMaintenanceBenchmarkFixture` in
-- src/consumer_packet_gate.rs, one at a time.
use o_sfu_benchmarks.Base.{
  ℕ, ◌+◌, ◌≤◌, ◌<◌, ◌%◌, Option, some, true, ◌≡◌, inl, inr, refl, ap, ◌∙◌, arith, length, get_elem?,
  drop, u64_max, ltb, eqb, eqb_self, Option-cases,
}
use o_sfu_benchmarks.Base.Arrays.{
  position, position_of_some, position_of_none, remove_at, swap_remove, get_elem?_range,
}
use o_sfu_benchmarks.Base.Map.{Map, remove}
use o_sfu_benchmarks.Session.{SessionKeys, MediaIds}
use o_sfu_benchmarks.Gate.Index.{IsIndexed-distinct, reindex, reenter, swap-IsIndexed}
use o_sfu_benchmarks.Gate.Reindex.{stable-IsIndexed}
use o_sfu_benchmarks.Gate.Defs.{RouteDestination}
use o_sfu_benchmarks.Gate.Maintenance.{
  MaintenanceFixture, add_unindexed, add_indexed, remove_add_linear, remove_add_swap,
  remove_add_stable, current_linear_remove_add_cycle, media_id_indexed_swap_remove_add_cycle,
  media_id_indexed_stable_remove_add_cycle,
}
use o_sfu_benchmarks.Gate.Maintenance.Removed.{remove_at-IsRemoved, swap_remove-IsRemoved}
use o_sfu_benchmarks.Gate.Maintenance.Replaced.{
  IsMaintained, IsReplaced, target_taken, target_lem, advanced, added-IsReplaced,
  add_indexed-IsMaintained,
}

module _ {Session Media : Type 0} (api : SessionKeys Session) (ids : MediaIds Media) where
  -- A cycle ends in a maintained fixture that has the target replaced.
  pub record IsCycled (f : MaintenanceFixture Session Media)
      (o : Option (MaintenanceFixture Session Media × ℕ)) : Type 0 where
    pub target : RouteDestination Session Media
    pub after : MaintenanceFixture Session Media
    pub is_target :
        get_elem? f.destinations (f.removal_cursor % length f.destinations) ≡ some target
    pub runs : o ≡ some (after, length f.destinations)
    pub maintained : IsMaintained api ids after
    pub replaced : IsReplaced api ids f target after

  module _ (f : MaintenanceFixture Session Media) (v : IsMaintained api ids f)
      (room : 0 < length f.destinations) (fits : f.next_destination_index + 1_000 ≤ u64_max) where
    swap_run :
        (target : RouteDestination Session Media) (p : ℕ)
        → get_elem? f.destinations p ≡ some target
        → remove_add_swap api ids target (advanced f)
          ≡ some (
              add_indexed api ids (advanced f) (swap_remove f.destinations p) (
                reenter ids.key
                  (λ d. d.media_id)
                  (swap_remove f.destinations p)
                  p
                  (remove ids.key target.media_id f.media_id_index)))
    unfolding remove_add_swap
    swap_run target p at =
        let inside : ltb p (length f.destinations) ≡ true =
          ground (arith, get_elem?_range f.destinations p at) in
        rw (remove_add_swap, v.indexed.listed p target at, inside) refl

    -- A cycle that removes by a swap.
    pub swap_cycle_lem : IsCycled f (media_id_indexed_swap_remove_add_cycle api ids f)
    unfolding media_id_indexed_swap_remove_add_cycle add_indexed
    swap_cycle_lem =
        let (target, at, taken) = target_lem api ids f room in
        let p = f.removal_cursor % length f.destinations in
        let kept = swap_remove f.destinations p in
        let index =
          reenter ids.key (λ d. d.media_id) kept p
            (remove ids.key target.media_id f.media_id_index) in
        let removed =
          swap_remove-IsRemoved f.destinations p (get_elem?_range f.destinations p at) in
        let after = (add_indexed api ids (advanced f) kept index).0 in
        let replaced =
          added-IsReplaced api ids f target p v fits at kept removed after refl refl refl in
        record {
          target = target;
          after = after;
          is_target = at;
          runs = rw taken (swap_run target p at ∙ ap (λ n. some (after, n)) replaced.size);
          maintained = add_indexed-IsMaintained api ids f target p v fits at kept removed index (
              swap-IsIndexed ids.key (λ d. d.media_id) f.destinations f.media_id_index p target
                v.indexed at);
          replaced = replaced;
        }

    stable_run :
        (target : RouteDestination Session Media) (p : ℕ)
        → get_elem? f.destinations p ≡ some target
        → remove_add_stable api ids target (advanced f)
          ≡ some (
              add_indexed api ids (advanced f) (remove_at f.destinations p) (
                reindex ids.key
                  (λ d. d.media_id)
                  (drop p (remove_at f.destinations p))
                  p
                  (remove ids.key target.media_id f.media_id_index)))
    unfolding remove_add_stable
    stable_run target p at =
        let inside : ltb p (length f.destinations) ≡ true =
          ground (arith, get_elem?_range f.destinations p at) in
        rw (remove_add_stable, v.indexed.listed p target at, inside) refl

    -- A cycle that keeps the order.
    pub stable_cycle_lem : IsCycled f (media_id_indexed_stable_remove_add_cycle api ids f)
    unfolding media_id_indexed_stable_remove_add_cycle add_indexed
    stable_cycle_lem =
        let (target, at, taken) = target_lem api ids f room in
        let p = f.removal_cursor % length f.destinations in
        let kept = remove_at f.destinations p in
        let index =
          reindex ids.key (λ d. d.media_id) (drop p kept) p
            (remove ids.key target.media_id f.media_id_index) in
        let removed = remove_at-IsRemoved f.destinations p (get_elem?_range f.destinations p at) in
        let after = (add_indexed api ids (advanced f) kept index).0 in
        let replaced =
          added-IsReplaced api ids f target p v fits at kept removed after refl refl refl in
        record {
          target = target;
          after = after;
          is_target = at;
          runs = rw taken (stable_run target p at ∙ ap (λ n. some (after, n)) replaced.size);
          maintained = add_indexed-IsMaintained api ids f target p v fits at kept removed index (
              stable-IsIndexed ids.key (λ d. d.media_id) f.destinations f.media_id_index p target
                v.indexed at);
          replaced = replaced;
        }

    -- The scan finds the target where the cursor points.
    position_target :
        (target : RouteDestination Session Media) (p : ℕ)
        → get_elem? f.destinations p ≡ some target
        → position (λ d. eqb ids.key.dec d.media_id target.media_id) f.destinations ≡ some p
    position_target target p at =
        let test =
          λ (d : RouteDestination Session Media). eqb ids.key.dec d.media_id target.media_id in
        elim (Option-cases (position test f.destinations)) [
          | inl e ↦ absurd (
              cc (
                position_of_none test f.destinations e p target at,
                eqb_self ids.key.dec target.media_id,
              ))
          | inr (q, e) ↦
              let (d, there, is) = position_of_some test f.destinations q e in
              e
              ∙ ap some (
                  IsIndexed-distinct ids.key (λ x. x.media_id) v.indexed q p d target there at
                    (ground (arith, is)))
        ]

    linear_run :
        (index : Map Media ℕ) (target : RouteDestination Session Media) (p : ℕ)
        → get_elem? f.destinations p ≡ some target
        → remove_add_linear api ids target (advanced (record f { media_id_index = index }))
          ≡ add_unindexed api ids
              (advanced (record f { media_id_index = index }))
              (remove_at f.destinations p)
    unfolding remove_add_linear
    linear_run index target p at = rw (remove_add_linear, position_target target p at) refl

    -- The cycle that scans, on the same destinations with any index, which it keeps.
    pub linear_cycle_lem :
        (index : Map Media ℕ)
        → current_linear_remove_add_cycle api ids (record f { media_id_index = index })
          ≡ some (record stable_cycle_lem.after { media_id_index = index }, length f.destinations)
    unfolding current_linear_remove_add_cycle stable_cycle_lem add_indexed add_unindexed
    linear_cycle_lem index =
        let (target, at, taken) = target_lem api ids f room in
        let p = f.removal_cursor % length f.destinations in
        let g = record f { media_id_index = index } in
        rw (target_taken api ids g target room at) (
          ap some (linear_run index target p at)
          ∙ ap (λ n. some (record stable_cycle_lem.after { media_id_index = index }, n))
              stable_cycle_lem.replaced.size)

    -- On a maintained fixture with destinations, while the media ids last, the two cycles that use the
    -- index do not panic, and return the number of the destinations. Each leaves a maintained fixture of
    -- the same size in which the destination at the cursor is gone, the next one stands, all others are
    -- kept, and the cursor and the next number have moved on.
    pub replacing_cycles_lem :
        IsCycled f (media_id_indexed_swap_remove_add_cycle api ids f)
        × IsCycled f (media_id_indexed_stable_remove_add_cycle api ids f)
    replacing_cycles_lem = (swap_cycle_lem, stable_cycle_lem)
