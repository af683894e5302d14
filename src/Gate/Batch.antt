-- ===== src/Gate/Batch.antt =====
-- `ConsumerPacketGateBatchBenchmarkFixture` of src/consumer_packet_gate.rs: a batch of gate updates,
-- each found by a scan or by one of two indices. A result is `none` where the code would panic.
pub mod Lookup
pub mod Rounds
pub mod Agreement
pub mod New
use o_sfu_benchmarks.Base.{
  ℕ, zero, suc, ◌+◌, ◌==◌, ◌&&◌, Bool, true, false, not, Option, none, some, List, [], ◌∷◌, ◌>>=◌,
  get_elem?, set, if◌then◌else◌, eqb, saturating_add,
}
use o_sfu_benchmarks.Base.Arrays.{position}
use o_sfu_benchmarks.Base.Map.{Map, get}
use o_sfu_benchmarks.Session.{SessionKeys, MediaIds}
use o_sfu_benchmarks.Gate.Defs.{
  PacketGate, open_gate, rid_gate, block_gate, RouteDestination, IdentityLookupKey, GateUpdate,
  update_destination_gate, identity_key, benchmark_updates, benchmark_destinations, media_id_index,
  identity_index,
}

pub record BatchFixture (Session Media : Type 0) : Type 0 where
  pub destinations : List (RouteDestination Session Media)
  pub media_id_index : Map Media ℕ
  pub identity_index : Map (IdentityLookupKey Session Media) ℕ
  pub updates : List (GateUpdate Session Media)
  pub next_gate_is_open : Bool

-- What the loop over the updates changes.
pub record Batch (Session Media : Type 0) : Type 0 where
  pub destinations : List (RouteDestination Session Media)
  pub changed_count : ℕ
  pub failed_count : ℕ

-- `usize::from(bool)`
abbrev pub usize_of : Bool → ℕ
usize_of true = 1
usize_of false = 0

-- The gate of a cycle, and the flag afterwards.
abbrev pub next_gate : Bool → PacketGate × Bool
next_gate next_gate_is_open =
    let is_open = not next_gate_is_open in (if is_open then open_gate else rid_gate 1, is_open)

count_gate : ℕ × ℕ → PacketGate → ℕ × ℕ
count_gate (open_count, rid_count) open_gate = (saturating_add open_count 1, rid_count)
count_gate (open_count, rid_count) (rid_gate rid) = (open_count, saturating_add rid_count 1)
count_gate (open_count, rid_count) block_gate = (open_count, rid_count)

module _ {Session Media : Type 0} where
  aggregate_rounds : ℕ × ℕ → List (RouteDestination Session Media) → ℕ × ℕ
  unfolding count_gate
  aggregate_rounds counts [] = counts
  aggregate_rounds counts (d ∷ ds) =
      aggregate_rounds (if d.active then count_gate counts d.gate else counts) ds

  unfoldable pub source_gate_aggregate : List (RouteDestination Session Media) → ℕ
  unfolding aggregate_rounds
  source_gate_aggregate destinations =
      let (open_count, rid_count) = aggregate_rounds (0, 0) destinations in
      saturating_add open_count rid_count

  -- Where an update finds its destination, the gate there is updated in place.
  unfoldable pub apply_update :
      PacketGate → Batch Session Media → Option ℕ → Option (Batch Session Media)
  unfolding update_destination_gate
  apply_update gate b none = some (record b { failed_count = saturating_add b.failed_count 1 })
  apply_update gate b (some position) = elim (get_elem? b.destinations position) [
    | none ↦ none
    | some destination ↦
        let (updated, changed) = update_destination_gate destination gate in
        some (record b {
          destinations = set b.destinations position updated;
          changed_count = saturating_add b.changed_count (usize_of changed);
        })
  ]

  -- The loop of a cycle, with its lookup.
  unfoldable pub batch_rounds :
      (List (RouteDestination Session Media) → GateUpdate Session Media → Option (Option ℕ))
      → PacketGate
      → Batch Session Media
      → List (GateUpdate Session Media)
      → Option (Batch Session Media)
  unfolding apply_update
  batch_rounds lookup gate b [] = some b
  batch_rounds lookup gate b (u ∷ us) =
      lookup b.destinations u
      >>= (λ found. apply_update gate b found)
      >>= (λ c. batch_rounds lookup gate c us)

  -- What a cycle leaves and returns.
  unfoldable pub finish :
      BatchFixture Session Media → Bool → Batch Session Media → BatchFixture Session Media × ℕ
  unfolding source_gate_aggregate
  finish f is_open b =
      let aggregate = if b.changed_count == 0 then 0 else source_gate_aggregate b.destinations in
      (
        record f { destinations = b.destinations; next_gate_is_open = is_open },
        saturating_add (saturating_add b.changed_count b.failed_count) aggregate,
      )

  unfoldable pub batch_cycle :
      (List (RouteDestination Session Media) → GateUpdate Session Media → Option (Option ℕ))
      → BatchFixture Session Media
      → Option (BatchFixture Session Media × ℕ)
  unfolding batch_rounds finish
  batch_cycle lookup f =
      let (gate, is_open) = next_gate f.next_gate_is_open in
      batch_rounds lookup gate
        (record { destinations = f.destinations; changed_count = 0; failed_count = 0 }) f.updates
      >>= (λ b. some (finish f is_open b))

module _ {Session Media : Type 0} (api : SessionKeys Session) (ids : MediaIds Media) where
  unfoldable pub new_batch : ℕ → BatchFixture Session Media
  unfolding benchmark_destinations media_id_index identity_index benchmark_updates
  new_batch destination_count =
      let destinations = benchmark_destinations api ids destination_count in
      record {
        destinations = destinations;
        media_id_index = media_id_index api ids destinations;
        identity_index = identity_index api ids destinations;
        updates = benchmark_updates destinations;
        next_gate_is_open = false;
      }

  -- `iter_mut().find(..)`
  unfoldable pub linear_lookup :
      List (RouteDestination Session Media) → GateUpdate Session Media → Option (Option ℕ)
  unfolding position
  linear_lookup destinations update = some (
      position
        (λ d.
          eqb api.key.dec d.session_key update.session_key
          && eqb ids.key.dec d.media_id update.media_id)
        destinations)

  -- An entry of another session fails, and one out of range panics.
  unfoldable pub media_id_lookup :
      Map Media ℕ
      → List (RouteDestination Session Media)
      → GateUpdate Session Media
      → Option (Option ℕ)
  unfolding get
  media_id_lookup index destinations update = elim (get ids.key update.media_id index) [
    | none ↦ some none
    | some position ↦ elim (get_elem? destinations position) [
      | none ↦ none
      | some d ↦
          some (if eqb api.key.dec d.session_key update.session_key then some position else none)
    ]
  ]

  unfoldable pub identity_lookup :
      Map (IdentityLookupKey Session Media) ℕ
      → List (RouteDestination Session Media)
      → GateUpdate Session Media
      → Option (Option ℕ)
  unfolding get
  identity_lookup index destinations update =
      some (get (identity_key api ids) update.identity_key index)

  unfoldable pub current_linear_batch_cycle :
      BatchFixture Session Media → Option (BatchFixture Session Media × ℕ)
  unfolding batch_cycle linear_lookup
  current_linear_batch_cycle = batch_cycle linear_lookup

  unfoldable pub media_id_indexed_batch_cycle :
      BatchFixture Session Media → Option (BatchFixture Session Media × ℕ)
  unfolding batch_cycle media_id_lookup
  media_id_indexed_batch_cycle f = batch_cycle (media_id_lookup f.media_id_index) f

  unfoldable pub identity_indexed_batch_cycle :
      BatchFixture Session Media → Option (BatchFixture Session Media × ℕ)
  unfolding batch_cycle identity_lookup
  identity_indexed_batch_cycle f = batch_cycle (identity_lookup f.identity_index) f
