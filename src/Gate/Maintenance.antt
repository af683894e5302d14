-- ===== src/Gate/Maintenance.antt =====
-- `ConsumerPacketGateRouteMaintenanceBenchmarkFixture` of src/consumer_packet_gate.rs, which replaces
-- one destination after the other, and the two ways to build a route. A result is `none` where the
-- code would panic.
pub mod Removed
pub mod Replaced
pub mod Cycles
pub mod Runs
pub mod Routes
use o_sfu_benchmarks.Base.{
  ℕ, zero, suc, ◌%◌, ◌==◌, Option, none, some, List, [], ◌∷◌, ◌++◌, ◌>>=◌, length, get_elem?, drop,
  tabulate, if◌then◌else◌, ltb, eqb, saturating_add,
}
use o_sfu_benchmarks.Base.Arrays.{position, remove_at, swap_remove}
use o_sfu_benchmarks.Base.Map.{Map, get, insert, remove}
use o_sfu_benchmarks.Session.{SessionKeys, MediaIds}
use o_sfu_benchmarks.Gate.Index.{reindex, reenter}
use o_sfu_benchmarks.Gate.Defs.{
  RouteDestination, benchmark_destination, benchmark_destinations, media_id_index,
}

pub record MaintenanceFixture (Session Media : Type 0) : Type 0 where
  pub destinations : List (RouteDestination Session Media)
  pub media_id_index : Map Media ℕ
  pub removal_cursor : ℕ
  pub next_destination_index : ℕ

module _ {Session Media : Type 0} where
  -- A remainder by no destinations panics.
  unfoldable pub next_removal_target :
      MaintenanceFixture Session Media
      → Option (RouteDestination Session Media × MaintenanceFixture Session Media)
  next_removal_target f =
      if length f.destinations == 0
      then none
      else elim (get_elem? f.destinations (f.removal_cursor % length f.destinations)) [
        | none ↦ none
        | some target ↦
            some (target, record f { removal_cursor = saturating_add f.removal_cursor 1 })
      ]

module _ {Session Media : Type 0} (api : SessionKeys Session) (ids : MediaIds Media) where
  unfoldable pub new_maintenance : ℕ → MaintenanceFixture Session Media
  unfolding benchmark_destinations media_id_index
  new_maintenance destination_count =
      let destinations = benchmark_destinations api ids destination_count in
      record {
        destinations = destinations;
        media_id_index = media_id_index api ids destinations;
        removal_cursor = 0;
        next_destination_index = destination_count;
      }

  -- The new destination goes to the end.
  unfoldable pub add_unindexed :
      MaintenanceFixture Session Media
      → List (RouteDestination Session Media)
      → MaintenanceFixture Session Media × ℕ
  unfolding benchmark_destination
  add_unindexed f kept =
      let destinations = kept ++ benchmark_destination api ids f.next_destination_index ∷ [] in
      (
        record f {
          destinations = destinations;
          next_destination_index = saturating_add f.next_destination_index 1;
        },
        length destinations,
      )

  -- This one also enters it into the index.
  unfoldable pub add_indexed :
      MaintenanceFixture Session Media
      → List (RouteDestination Session Media)
      → Map Media ℕ
      → MaintenanceFixture Session Media × ℕ
  unfolding benchmark_destination insert
  add_indexed f kept index =
      let destination = benchmark_destination api ids f.next_destination_index in
      let destinations = kept ++ destination ∷ [] in
      (
        record f {
          destinations = destinations;
          media_id_index = insert ids.key destination.media_id (length kept) index;
          next_destination_index = saturating_add f.next_destination_index 1;
        },
        length destinations,
      )

  -- The index is left as it was.
  unfoldable pub remove_add_linear :
      RouteDestination Session Media
      → MaintenanceFixture Session Media
      → MaintenanceFixture Session Media × ℕ
  unfolding position remove_at add_unindexed
  remove_add_linear target f =
      elim (position (λ d. eqb ids.key.dec d.media_id target.media_id) f.destinations) [
        | none ↦ (f, 0)
        | some p ↦ add_unindexed f (remove_at f.destinations p)
      ]

  unfoldable pub current_linear_remove_add_cycle :
      MaintenanceFixture Session Media → Option (MaintenanceFixture Session Media × ℕ)
  unfolding next_removal_target remove_add_linear
  current_linear_remove_add_cycle f =
      next_removal_target f >>= (λ r. some (remove_add_linear r.0 r.1))

  -- The last destination takes the place of the removed one. A position out of range panics.
  unfoldable pub remove_add_swap :
      RouteDestination Session Media
      → MaintenanceFixture Session Media
      → Option (MaintenanceFixture Session Media × ℕ)
  unfolding get remove swap_remove reenter add_indexed
  remove_add_swap target f = elim (get ids.key target.media_id f.media_id_index) [
    | none ↦ some (f, 0)
    | some p ↦
        let kept = swap_remove f.destinations p in
        let index = remove ids.key target.media_id f.media_id_index in
        if ltb p (length f.destinations)
        then some (add_indexed f kept (reenter ids.key (λ d. d.media_id) kept p index))
        else none
  ]

  unfoldable pub media_id_indexed_swap_remove_add_cycle :
      MaintenanceFixture Session Media → Option (MaintenanceFixture Session Media × ℕ)
  unfolding next_removal_target remove_add_swap
  media_id_indexed_swap_remove_add_cycle f =
      next_removal_target f >>= (λ r. remove_add_swap r.0 r.1)

  -- The destinations behind the removed one move up, and are entered anew.
  unfoldable pub remove_add_stable :
      RouteDestination Session Media
      → MaintenanceFixture Session Media
      → Option (MaintenanceFixture Session Media × ℕ)
  unfolding get remove remove_at reindex add_indexed
  remove_add_stable target f = elim (get ids.key target.media_id f.media_id_index) [
    | none ↦ some (f, 0)
    | some p ↦
        let kept = remove_at f.destinations p in
        let index = remove ids.key target.media_id f.media_id_index in
        if ltb p (length f.destinations)
        then some (add_indexed f kept (reindex ids.key (λ d. d.media_id) (drop p kept) p index))
        else none
  ]

  unfoldable pub media_id_indexed_stable_remove_add_cycle :
      MaintenanceFixture Session Media → Option (MaintenanceFixture Session Media × ℕ)
  unfolding next_removal_target remove_add_stable
  media_id_indexed_stable_remove_add_cycle f =
      next_removal_target f >>= (λ r. remove_add_stable r.0 r.1)

  unfoldable pub build_current_linear_route : ℕ → ℕ
  unfolding benchmark_destination
  build_current_linear_route destination_count =
      length (tabulate (benchmark_destination api ids) destination_count)

  -- The destinations and the index, pushed one by one.
  unfoldable pub build_rounds : ℕ → List (RouteDestination Session Media) × Map Media ℕ
  unfolding benchmark_destination insert
  build_rounds zero = ([], [])
  build_rounds (suc index) =
      let (destinations, media_id_index) = build_rounds index in
      let destination = benchmark_destination api ids index in
      (
        destinations ++ destination ∷ [],
        insert ids.key destination.media_id (length destinations) media_id_index,
      )

  unfoldable pub build_media_id_indexed_route : ℕ → ℕ
  unfolding build_rounds
  build_media_id_indexed_route destination_count = length (build_rounds destination_count).0

abbrev pub benchmark_source_media_id : ℕ
benchmark_source_media_id = 100
