-- ===== src/Gate/Batch/Rounds.antt =====
-- What a batch of gate updates of src/consumer_packet_gate.rs does, whichever lookup it uses.
use o_sfu_benchmarks.Base.{
  ℕ, Option, none, some, List, [], ◌∷◌, ◌≡◌, refl, ap, ◌∙◌, inl, inr, arith, get_elem?, set, any,
  All, saturating_add, eqb_iff, if◌then◌else◌, Bool-cases, Option-cases, ==_iff, ◌==◌,
}
use o_sfu_benchmarks.Base.Arrays.{position, position_of_none, get_elem?-set, get_elem?_range}
use o_sfu_benchmarks.Base.Map.{Map}
use o_sfu_benchmarks.Session.{SessionKeys, MediaIds}
use o_sfu_benchmarks.Gate.Index.{IsIndexed-distinct}
use o_sfu_benchmarks.Gate.Defs.{
  PacketGate, RouteDestination, IdentityLookupKey, GateUpdate, identity_key, identity_of,
  pending_for, update_destination_gate, PacketGate-discrete, pending-discrete,
}
use o_sfu_benchmarks.Gate.Batch.{
  Batch, linear_lookup, media_id_lookup, identity_lookup, apply_update, batch_rounds, usize_of,
}
use o_sfu_benchmarks.Gate.Batch.Lookup.{
  IsIndexedTwice, IsUpdate, matches, set-IsIndexed, lookup_media, lookup_identity, scan_some,
}

-- A destination at a gate.
abbrev pub gated :
    {Session Media : Type 0}
    → PacketGate
    → RouteDestination Session Media
    → RouteDestination Session Media
gated gate d = record d { gate = gate; pending_gate = pending_for gate }

-- An update leaves the destination at the gate also when it reports no change.
update-gated :
    {Session Media : Type 0} (d : RouteDestination Session Media) (gate : PacketGate)
    → (update_destination_gate d gate).0 ≡ gated gate d
unfolding update_destination_gate
update-gated d gate = elim (PacketGate-discrete d.gate gate) [
  | no u ↦ ground (arith, eqb_iff PacketGate-discrete d.gate gate)
  | yes e ↦ elim (pending-discrete d.pending_gate (pending_for gate)) [
    | no u ↦ ground (arith, eqb_iff pending-discrete d.pending_gate (pending_for gate))
    | yes f ↦ ground (
      arith,
      eqb_iff PacketGate-discrete d.gate gate,
      eqb_iff pending-discrete d.pending_gate (pending_for gate),
    )
  ]
]

module _ {Session Media : Type 0} (api : SessionKeys Session) (ids : MediaIds Media) where
  -- What the updates make of a destination: they gate it if one of them names it.
  abbrev pub settled :
      PacketGate
      → List (GateUpdate Session Media)
      → RouteDestination Session Media
      → RouteDestination Session Media
  settled gate updates d = if any (λ u. matches api ids u d) updates then gated gate d else d

  module _ (media_index : Map Media ℕ) (identities : Map (IdentityLookupKey Session Media) ℕ)
      (gate : PacketGate) where
    -- One update that is found by the scan.
    record IsStep (b : Batch Session Media) (u : GateUpdate Session Media) (c : Batch Session Media)
        : Type 0 where
      pub indexed : IsIndexedTwice api ids c.destinations media_index identities
      pub settles :
          (q : ℕ) (d : RouteDestination Session Media)
          → get_elem? b.destinations q ≡ some d
          → get_elem? c.destinations q ≡ some (settled gate (u ∷ []) d)

    missed-IsStep :
        (b : Batch Session Media) (u : GateUpdate Session Media)
        → IsIndexedTwice api ids b.destinations media_index identities
        → position (matches api ids u) b.destinations ≡ none
        → (c : Batch Session Media) × (apply_update gate b none ≡ some c) × IsStep b u c
    unfolding apply_update
    missed-IsStep b u v e = (
      _,
      refl,
      record {
        indexed = v;
        settles =
            λ q d h. ground (arith, h, position_of_none (matches api ids u) b.destinations e q d h);
      },
    )

    apply_update_of_some :
        (b : Batch Session Media) (p : ℕ) (d : RouteDestination Session Media)
        → get_elem? b.destinations p ≡ some d
        → (c : Batch Session Media) × (apply_update gate b (some p) ≡ some c)
          × (c.destinations ≡ set b.destinations p (gated gate d))
    unfolding apply_update
    apply_update_of_some b p d at = (
      record b {
        destinations = set b.destinations p (update_destination_gate d gate).0;
        changed_count =
            saturating_add b.changed_count (usize_of (update_destination_gate d gate).1);
      },
      rw (apply_update, at) refl,
      ap (set b.destinations p) (update-gated d gate),
    )

    -- The updated destination is the only one that the update names.
    settled_at :
        (b : Batch Session Media) (u : GateUpdate Session Media) (p : ℕ)
        → (d : RouteDestination Session Media)
        → IsIndexedTwice api ids b.destinations media_index identities
        → get_elem? b.destinations p ≡ some d
        → d.session_key ≡ u.session_key
        → d.media_id ≡ u.media_id
        → (q : ℕ) (y : RouteDestination Session Media) → get_elem? b.destinations q ≡ some y
        → get_elem? (set b.destinations p (gated gate d)) q ≡ some (settled gate (u ∷ []) y)
    settled_at b u p d v at same_session same_media q y h =
        let put =
          get_elem?-set b.destinations p (gated gate d) q (get_elem?_range b.destinations p at) in
        elim (Bool-cases (q == p)) [
          | inl here ↦
              let e = (==_iff q p).0 here in
              let same : y ≡ d = cc (h, at, e) in
              rw same (ground (arith, put, here, same_session, same_media))
          | inr other ↦
              let apart : y.media_id ≡ d.media_id → q ≡ p =
                λ m. IsIndexed-distinct ids.key (λ x. x.media_id) v.by_media q p y d h at m in
              ground (arith, put, other, h, apart, same_media)
        ]

    found-IsStep :
        (b : Batch Session Media) (u : GateUpdate Session Media) (p : ℕ)
        → IsIndexedTwice api ids b.destinations media_index identities
        → position (matches api ids u) b.destinations ≡ some p
        → (c : Batch Session Media) × (apply_update gate b (some p) ≡ some c) × IsStep b u c
    found-IsStep b u p v e =
        let (d, at, same_session, same_media) = scan_some api ids b.destinations v u p e in
        let (c, runs, is) = apply_update_of_some b p d at in
        let room = get_elem?_range b.destinations p at in
        (
          c,
          runs,
          record {
            indexed = record {
              by_media = rw is (
                  set-IsIndexed ids.key (λ x. x.media_id) b.destinations media_index p d
                    (gated gate d) v.by_media at refl);
              by_identity = rw is (
                  set-IsIndexed (identity_key api ids) identity_of b.destinations identities p d
                    (gated gate d) v.by_identity at refl);
            };
            settles = λ q y h.
                ap (λ ds. get_elem? ds q) is
                ∙ settled_at b u p d v at same_session same_media q y h;
          },
        )

    -- An update runs, whichever lookup finds its destination.
    step :
        (b : Batch Session Media) (u : GateUpdate Session Media)
        → IsIndexedTwice api ids b.destinations media_index identities
        → (found : Option ℕ) × (c : Batch Session Media) × (linear_lookup api ids b.destinations u
            ≡ some found)
          × (apply_update gate b found ≡ some c)
          × IsStep b u c
    unfolding linear_lookup
    step b u v = elim (Option-cases (position (matches api ids u) b.destinations)) [
      | inl e ↦ let (c, runs, is) = missed-IsStep b u v e in (none, c, ap some e, runs, is)
      | inr (p, e) ↦ let (c, runs, is) = found-IsStep b u p v e in (some p, c, ap some e, runs, is)
    ]

    settled_again :
        (u : GateUpdate Session Media) (us : List (GateUpdate Session Media))
        → (d : RouteDestination Session Media)
        → settled gate us (settled gate (u ∷ []) d) ≡ settled gate (u ∷ us) d
    settled_again u us d = elim (Bool-cases (matches api ids u d)) [
      | inl h ↦ ground (arith, h)
      | inr h ↦ ground (arith, h)
    ]

    -- What the rounds of a batch leave.
    pub record IsSettled (b : Batch Session Media) (us : List (GateUpdate Session Media))
        (c : Batch Session Media) : Type 0 where
      pub indexed : IsIndexedTwice api ids c.destinations media_index identities
      pub settles :
          (q : ℕ) (d : RouteDestination Session Media)
          → get_elem? b.destinations q ≡ some d
          → get_elem? c.destinations q ≡ some (settled gate us d)

    pub rounds_lem :
        (b : Batch Session Media) (us : List (GateUpdate Session Media))
        → IsIndexedTwice api ids b.destinations media_index identities
        → All (IsUpdate api ids) us
        → (c : Batch Session Media) × (batch_rounds (linear_lookup api ids) gate b us ≡ some c)
          × (batch_rounds (media_id_lookup api ids media_index) gate b us ≡ some c)
          × (batch_rounds (identity_lookup api ids identities) gate b us ≡ some c)
          × IsSettled b us c
    unfolding batch_rounds
    rounds_lem b [] v named = (b, refl, refl, refl, record { indexed = v; settles = λ q d h. h })
    rounds_lem b (u ∷ us) v named =
        let (found, c, finds, runs, is) = step b u v in
        let (e, linear, media, identity, rest) = rounds_lem c us is.indexed named.1 in
        let by_media = lookup_media api ids b.destinations v u ∙ finds in
        let by_identity = lookup_identity api ids b.destinations v u named.0 ∙ finds in
        (
          e,
          rw (finds, runs) linear,
          rw (by_media, runs) media,
          rw (by_identity, runs) identity,
          record {
            indexed = rest.indexed;
            settles = λ q d h.
                rest.settles q (settled gate (u ∷ []) d) (is.settles q d h)
                ∙ ap some (settled_again u us d);
          },
        )
