-- ===== src/Gate/Batch/Agreement.antt =====
-- The three cycles of `ConsumerPacketGateBatchBenchmarkFixture` in src/consumer_packet_gate.rs against
-- each other.
use o_sfu_benchmarks.Base.{ℕ, Option, some, ◌≡◌, ◌>>=◌, ap, All, get_elem?}
use o_sfu_benchmarks.Session.{SessionKeys, MediaIds}
use o_sfu_benchmarks.Gate.Defs.{RouteDestination}
use o_sfu_benchmarks.Gate.Batch.{
  BatchFixture, Batch, batch_cycle, next_gate, finish, current_linear_batch_cycle,
  media_id_indexed_batch_cycle, identity_indexed_batch_cycle,
}
use o_sfu_benchmarks.Gate.Batch.Lookup.{IsIndexedTwice, IsUpdate}
use o_sfu_benchmarks.Gate.Batch.Rounds.{settled, rounds_lem}

module _ {Session Media : Type 0} (api : SessionKeys Session) (ids : MediaIds Media) where
  -- The indices hold the positions of the destinations, and each update names one of them.
  pub record IsConsistent (f : BatchFixture Session Media) : Type 0 where
    pub indexed : IsIndexedTwice api ids f.destinations f.media_id_index f.identity_index
    pub updates : All (IsUpdate api ids) f.updates

  -- On a consistent fixture none of the three cycles panics, and they leave the same fixture and
  -- return the same number. That fixture is consistent again, and in it the destinations that an
  -- update names are at the gate of the cycle, with its pending gate, and the others as they were.
  pub batch_cycles-agree :
      (f : BatchFixture Session Media)
      → IsConsistent f
      → (r : BatchFixture Session Media × ℕ) × (current_linear_batch_cycle api ids f ≡ some r)
        × (media_id_indexed_batch_cycle api ids f ≡ some r)
        × (identity_indexed_batch_cycle api ids f ≡ some r)
        × IsConsistent r.0
        × ((q : ℕ) (d : RouteDestination Session Media)
            → get_elem? f.destinations q ≡ some d
            → get_elem? r.0.destinations q
              ≡ some (settled api ids (next_gate f.next_gate_is_open).0 f.updates d))
  unfolding current_linear_batch_cycle media_id_indexed_batch_cycle identity_indexed_batch_cycle
      batch_cycle finish
  batch_cycles-agree f v =
      let (c, linear, media, identity, is) =
        rounds_lem api ids f.media_id_index f.identity_index (next_gate f.next_gate_is_open).0
          (record { destinations = f.destinations; changed_count = 0; failed_count = 0 }) f.updates
          v.indexed v.updates in
      let is_open = (next_gate f.next_gate_is_open).1 in
      let ended = λ (o : Option (Batch Session Media)). o >>= (λ b. some (finish f is_open b)) in
      (
        finish f is_open c,
        ap ended linear,
        ap ended media,
        ap ended identity,
        record { indexed = is.indexed; updates = v.updates },
        is.settles,
      )
