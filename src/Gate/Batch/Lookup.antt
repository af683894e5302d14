-- ===== src/Gate/Batch/Lookup.antt =====
-- The three lookups of `ConsumerPacketGateBatchBenchmarkFixture` in src/consumer_packet_gate.rs, and
-- what an update in place keeps of the indices.
use o_sfu_benchmarks.Base.{
  ℕ, ◌==◌, ◌&&◌, Bool, none, some, List, ◌≡◌, ◌≢◌, refl, sym, ap, ◌∙◌, inl, inr, arith, get_elem?,
  set, if◌then◌else◌, eqb, eqb_iff, ==_iff, Bool-cases, Option-cases,
}
use o_sfu_benchmarks.Base.Arrays.{
  position, position_of_some, position_of_none, get_elem?-set, get_elem?_range,
}
use o_sfu_benchmarks.Base.Map.{Key, Map, get}
use o_sfu_benchmarks.Session.{SessionKeys, MediaIds}
use o_sfu_benchmarks.Gate.Index.{IsIndexed}
use o_sfu_benchmarks.Gate.Defs.{
  RouteDestination, IdentityLookupKey, GateUpdate, identity_key, identity_of,
}
use o_sfu_benchmarks.Gate.Batch.{linear_lookup, media_id_lookup, identity_lookup}

-- Putting a value at a position that had the same key keeps the index.
pub set-IsIndexed :
    {A K : Type 0} (key : Key K) (key_of : A → K) (xs : List A) (index : Map K ℕ) (p : ℕ) (x y : A)
    → IsIndexed key key_of xs index
    → get_elem? xs p ≡ some x
    → key_of y ≡ key_of x
    → IsIndexed key key_of (set xs p y) index
set-IsIndexed key key_of xs index p x y v at same =
    let room = get_elem?_range xs p at in
    record {
      found = λ k q h.
          let (z, at_q, named) = v.found k q h in
          elim (Bool-cases (q == p)) [
            | inl here ↦
                let e = (==_iff q p).0 here in (y, ground (arith, get_elem?-set xs p y q room), cc)
            | inr other ↦ (z, ground (arith, get_elem?-set xs p y q room), named)
          ];
      listed = λ q z h. elim (Bool-cases (q == p)) [
        | inl here ↦
            let e = (==_iff q p).0 here in
            let z_is : some y ≡ some z = ground (arith, get_elem?-set xs p y q room) in
            cc (v.listed p x at)
        | inr other ↦ v.listed q z (ground (arith, get_elem?-set xs p y q room))
      ];
    }

module _ {Session Media : Type 0} (api : SessionKeys Session) (ids : MediaIds Media) where
  abbrev pub matches : GateUpdate Session Media → RouteDestination Session Media → Bool
  matches u d = eqb api.key.dec d.session_key u.session_key && eqb ids.key.dec d.media_id u.media_id

  -- Both indices hold the positions of the destinations.
  pub record IsIndexedTwice (ds : List (RouteDestination Session Media)) (media_index : Map Media ℕ)
      (identities : Map (IdentityLookupKey Session Media) ℕ) : Type 0 where
    pub by_media : IsIndexed ids.key (λ d. d.media_id) ds media_index
    pub by_identity : IsIndexed (identity_key api ids) identity_of ds identities

  -- The update names one destination.
  abbrev pub IsUpdate : GateUpdate Session Media → Type 0
  IsUpdate u = u.identity_key ≡ record { session_key = u.session_key; media_id = u.media_id }

  module _ (ds : List (RouteDestination Session Media)) {media_index : Map Media ℕ}
      {identities : Map (IdentityLookupKey Session Media) ℕ}
      (v : IsIndexedTwice ds media_index identities) (u : GateUpdate Session Media) where
    media_lookup_none :
        get ids.key u.media_id media_index ≡ none
        → media_id_lookup api ids media_index ds u ≡ some none
    unfolding media_id_lookup
    media_lookup_none e = rw (media_id_lookup, e) refl

    media_lookup_some :
        (p : ℕ) (d : RouteDestination Session Media)
        → get ids.key u.media_id media_index ≡ some p
        → get_elem? ds p ≡ some d
        → media_id_lookup api ids media_index ds u
          ≡ some (if eqb api.key.dec d.session_key u.session_key then some p else none)
    unfolding media_id_lookup
    media_lookup_some p d e at = rw (media_id_lookup, e, at) refl

    -- A destination that the scan finds.
    pub scan_some :
        (p : ℕ)
        → position (matches u) ds ≡ some p
        → (d : RouteDestination Session Media) × (get_elem? ds p ≡ some d)
          × (d.session_key ≡ u.session_key)
          × (d.media_id ≡ u.media_id)
    scan_some p e =
        let (d, at, m) = position_of_some (matches u) ds p e in
        (d, at, ground (arith, m), ground (arith, m))

    pub scan_none :
        (p : ℕ) (d : RouteDestination Session Media)
        → position (matches u) ds ≡ none
        → get_elem? ds p ≡ some d
        → d.media_id ≡ u.media_id
        → d.session_key ≢ u.session_key
    scan_none p d e at same other = ground (
      arith,
      position_of_none (matches u) ds e p d at,
      eqb_iff api.key.dec d.session_key u.session_key,
      eqb_iff ids.key.dec d.media_id u.media_id,
    )

    pub lookup_media : media_id_lookup api ids media_index ds u ≡ linear_lookup api ids ds u
    unfolding linear_lookup
    lookup_media = elim (Option-cases (position (matches u) ds)) [
      | inr (p, e) ↦
          let (d, at, same_session, same_media) = scan_some p e in
          let entry : get ids.key u.media_id media_index ≡ some p =
            ap (λ k. get ids.key k media_index) (sym same_media) ∙ v.by_media.listed p d at in
          media_lookup_some p d entry at ∙ ground (arith, e, same_session)
      | inl e ↦ elim (Option-cases (get ids.key u.media_id media_index)) [
        | inl no_entry ↦ media_lookup_none no_entry ∙ ap some (sym e)
        | inr (p, entry) ↦
            let (d, at, named) = v.by_media.found u.media_id p entry in
            media_lookup_some p d entry at ∙ ground (arith, e, scan_none p d e at named)
      ]
    ]

    pub lookup_identity :
        IsUpdate u → identity_lookup api ids identities ds u ≡ linear_lookup api ids ds u
    unfolding linear_lookup identity_lookup
    lookup_identity named = elim (Option-cases (position (matches u) ds)) [
      | inr (p, e) ↦
          let (d, at, same_session, same_media) = scan_some p e in
          let same : identity_of d ≡ u.identity_key = cc in
          ap (λ k. some (get (identity_key api ids) k identities)) (sym same)
          ∙ ap some (v.by_identity.listed p d at)
          ∙ ap some (sym e)
      | inl e ↦ elim (Option-cases (get (identity_key api ids) u.identity_key identities)) [
        | inl no_entry ↦ ap some (no_entry ∙ sym e)
        | inr (p, entry) ↦
            let (d, at, is) = v.by_identity.found u.identity_key p entry in
            absurd (
              scan_none p d e at (ap (λ k. k.media_id) (is ∙ named))
                (ap (λ k. k.session_key) (is ∙ named)))
      ]
    ]
