-- ===== src/Gate/Maintenance/Replaced.antt =====
-- One cycle of `ConsumerPacketGateRouteMaintenanceBenchmarkFixture` in src/consumer_packet_gate.rs: the
-- oldest cursor position gives way to the next destination.
use o_sfu_benchmarks.Base.{
  ℕ, suc, ◌+◌, ◌≤◌, ◌<◌, ◌%◌, ◌==◌, none, some, false, List, [], ◌∷◌, ◌++◌, ◌≡◌, ◌≢◌, ◌↔◌, ◌⊎◌, inl,
  inr, refl, sym, ap, ◌∙◌, arith, length, length-append, get_elem?, u64_max, saturating_add,
  get_elem?_in_range, Bool-cases, Option-cases,
}
use o_sfu_benchmarks.Base.Arrays.{get_elem?-push, get_elem?-push_of_some}
use o_sfu_benchmarks.Base.Map.{Map, get}
use o_sfu_benchmarks.Session.{SessionKeys, MediaIds}
use o_sfu_benchmarks.Gate.Index.{IsIndexed, IsIndexed-distinct, push-IsIndexed}
use o_sfu_benchmarks.Gate.Defs.{RouteDestination, benchmark_destination}
use o_sfu_benchmarks.Gate.Batch.New.{destination_media_id}
use o_sfu_benchmarks.Gate.Maintenance.{MaintenanceFixture, next_removal_target, add_indexed}
use o_sfu_benchmarks.Gate.Maintenance.Removed.{Stands, IsRemoved}

-- The fixture that a target was taken from, with the cursor moved on.
abbrev pub advanced :
    {Session Media : Type 0} → MaintenanceFixture Session Media → MaintenanceFixture Session Media
advanced f = record f { removal_cursor = saturating_add f.removal_cursor 1 }

module _ {Session Media : Type 0} (api : SessionKeys Session) (ids : MediaIds Media) where
  -- The index holds the position of each destination, and the destinations were built before.
  pub record IsMaintained (f : MaintenanceFixture Session Media) : Type 0 where
    pub indexed : IsIndexed ids.key (λ d. d.media_id) f.destinations f.media_id_index
    pub built :
        (d : RouteDestination Session Media)
        → Stands f.destinations d
        → (k : ℕ) × (k < f.next_destination_index) × (d ≡ benchmark_destination api ids k)

  -- The removal target stands in the fixture.
  pub target_taken :
      (f : MaintenanceFixture Session Media) (d : RouteDestination Session Media)
      → 0 < length f.destinations
      → get_elem? f.destinations (f.removal_cursor % length f.destinations) ≡ some d
      → next_removal_target f ≡ some (d, advanced f)
  unfolding next_removal_target
  target_taken f d room at =
      let not_empty : (length f.destinations == 0) ≡ false = ground arith in
      rw (next_removal_target, not_empty, at) refl

  pub target_lem :
      (f : MaintenanceFixture Session Media)
      → 0 < length f.destinations
      → (d : RouteDestination Session Media) × (get_elem? f.destinations
            (f.removal_cursor % length f.destinations)
          ≡ some d)
        × (next_removal_target f ≡ some (d, advanced f))
  target_lem f room =
      let (d, at) =
        get_elem?_in_range f.destinations (f.removal_cursor % length f.destinations)
          (omega arith) in
      (d, at, target_taken f d room at)

  -- A destination that was not built yet has an id that no destination has.
  pub fresh_id :
      (f : MaintenanceFixture Session Media) (d : RouteDestination Session Media)
      → IsMaintained f
      → f.next_destination_index + 1_000 ≤ u64_max
      → Stands f.destinations d
      → d.media_id ≢ (benchmark_destination api ids f.next_destination_index).media_id
  fresh_id f d v fits there same =
      let (k, below, is) = v.built d there in
      let numbers =
        ids.new-injective (1_000 + k) (1_000 + f.next_destination_index) (omega arith) (omega arith)
          (sym (destination_media_id api ids k (omega arith))
            ∙ ap (λ d. d.media_id) (sym is)
            ∙ same
            ∙ destination_media_id api ids f.next_destination_index fits) in
      omega (arith, numbers)

  -- What a cycle makes of the fixture: the target is gone, and the next destination stands in it.
  pub record IsReplaced (f : MaintenanceFixture Session Media)
      (target : RouteDestination Session Media) (g : MaintenanceFixture Session Media)
      : Type 0 where
    pub size : length g.destinations ≡ length f.destinations
    pub cursor : g.removal_cursor ≡ saturating_add f.removal_cursor 1
    pub next : g.next_destination_index ≡ suc f.next_destination_index
    pub stands :
        (d : RouteDestination Session Media)
        → Stands g.destinations d ↔ (
            (d ≡ benchmark_destination api ids f.next_destination_index)
            ⊎ (Stands f.destinations d × (d.media_id ≢ target.media_id)))

  module _ (f : MaintenanceFixture Session Media) (target : RouteDestination Session Media) (p : ℕ)
      (v : IsMaintained f) (fits : f.next_destination_index + 1_000 ≤ u64_max)
      (at : get_elem? f.destinations p ≡ some target) (kept : List (RouteDestination Session Media))
      (removed : IsRemoved f.destinations p kept) where
    abbrev pub added : RouteDestination Session Media
    added = benchmark_destination api ids f.next_destination_index

    -- Where the elements of the list that got the new destination come from.
    push_source :
        (d : RouteDestination Session Media)
        → Stands (kept ++ added ∷ []) d
        → (d ≡ added) ⊎ ((r : ℕ) × (r ≢ p) × (get_elem? f.destinations r ≡ some d))
    push_source d (q, h) = elim (Bool-cases (q == length kept)) [
      | inl here ↦ inl (ground (arith, h, get_elem?-push kept added q))
      | inr other ↦ inr (removed.source q d (ground (arith, h, get_elem?-push kept added q)))
    ]

    -- The target is the only one with its media id.
    apart :
        (d : RouteDestination Session Media) (r : ℕ)
        → get_elem? f.destinations r ≡ some d
        → (r ≢ p) ↔ (d.media_id ≢ target.media_id)
    apart d r h = (
      λ u e. u (IsIndexed-distinct ids.key (λ x. x.media_id) v.indexed r p d target h at e),
      λ u e. u (cc (h, at, e)),
    )

    element_source :
        (d : RouteDestination Session Media)
        → Stands (kept ++ added ∷ []) d
        → (d ≡ added) ⊎ (Stands f.destinations d × (d.media_id ≢ target.media_id))
    element_source d there = elim (push_source d there) [
      | inl new ↦ inl new
      | inr (r, other, h) ↦ inr ((r, h), (apart d r h).0 other)
    ]

    element_kept :
        (d : RouteDestination Session Media)
        → (d ≡ added) ⊎ (Stands f.destinations d × (d.media_id ≢ target.media_id))
        → Stands (kept ++ added ∷ []) d
    element_kept d (inl new) =
        (length kept, ground (arith, get_elem?-push kept added (length kept)))
    element_kept d (inr ((r, h), other)) =
        let (q, stays) = removed.kept r d h ((apart d r h).1 other) in
        (q, get_elem?-push_of_some kept added q stays)

    added_fresh :
        (index : Map Media ℕ)
        → IsIndexed ids.key (λ d. d.media_id) kept index
        → get ids.key added.media_id index ≡ none
    added_fresh index w = elim (Option-cases (get ids.key added.media_id index)) [
      | inl e ↦ e
      | inr (q, e) ↦
          let (x, at_q, same) = w.found added.media_id q e in
          let (r, other, h) = removed.source q x at_q in absurd (fresh_id f x v fits (r, h) same)
    ]

    pub added-IsReplaced :
        (g : MaintenanceFixture Session Media)
        → g.destinations ≡ kept ++ added ∷ []
        → g.removal_cursor ≡ (advanced f).removal_cursor
        → g.next_destination_index ≡ saturating_add f.next_destination_index 1
        → IsReplaced f target g
    added-IsReplaced g is cursor next = record {
      size = ap length is ∙ omega (arith, length-append kept (added ∷ []), removed.shorter);
      cursor = cursor;
      next = next ∙ omega arith;
      stands = λ d. rw is (element_source d, element_kept d);
    }

    pub add_indexed-IsMaintained :
        (index : Map Media ℕ)
        → IsIndexed ids.key (λ d. d.media_id) kept index
        → IsMaintained (add_indexed api ids (advanced f) kept index).0
    unfolding add_indexed
    add_indexed-IsMaintained index w = record {
      indexed = push-IsIndexed ids.key (λ d. d.media_id) kept index added w (added_fresh index w);
      built = λ d there. elim (push_source d there) [
        | inl new ↦ (f.next_destination_index, omega arith, new)
        | inr (r, other, h) ↦ let (k, below, is) = v.built d (r, h) in (k, omega arith, is)
      ];
    }
