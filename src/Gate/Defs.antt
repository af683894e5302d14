-- ===== src/Gate/Defs.antt =====
-- The destinations of src/consumer_packet_gate.rs, their gates, and the indices over them.
use Prim.Native.Nat.{◌%◌}
use o_sfu_benchmarks.Base.{
  ℕ, ◌==◌, ◌&&◌, ◌||◌, Bool, true, false, not, Option, none, some, List, [], tabulate, map,
  if◌then◌else◌, eqb, ℕ_discrete, saturating_add,
}
use mathlib.Core.List.{reverse}
use o_sfu_benchmarks.Base.Int.{pos, i64_try_from, i64_saturating_add}
use o_sfu_benchmarks.Base.Map.{Key, Map}
use o_sfu_benchmarks.Session.{SessionKeys, MediaIds, UserId}
use o_sfu_benchmarks.ColdPath.Checksum.{unwrap_or}
use o_sfu_benchmarks.Gate.Index.{reindex}

pub data PacketGate : Type 0 where
  open_gate : PacketGate
  rid_gate : ℕ → PacketGate
  block_gate : PacketGate

unfoldable pub PacketGate-discrete : Discrete PacketGate
PacketGate-discrete = hlevel ℕ_discrete

unfoldable pub pending-discrete : Discrete (Option PacketGate)
pending-discrete = hlevel PacketGate-discrete

pub record RouteDestination (Session Media : Type 0) : Type 0 where
  pub session_key : Session
  pub media_id : Media
  pub active : Bool
  pub gate : PacketGate
  pub pending_gate : Option PacketGate

pub record IdentityLookupKey (Session Media : Type 0) : Type 0 where
  pub session_key : Session
  pub media_id : Media

pub record GateUpdate (Session Media : Type 0) : Type 0 where
  pub session_key : Session
  pub media_id : Media
  pub identity_key : IdentityLookupKey Session Media

-- The gate that waits until a keyframe of the rid arrives.
unfoldable pub pending_for : PacketGate → Option PacketGate
pending_for (rid_gate rid) = some (rid_gate rid)
pending_for open_gate = none
pending_for block_gate = none

module _ {Session Media : Type 0} where
  -- The destination afterwards, and whether it changed.
  unfoldable pub update_destination_gate :
      RouteDestination Session Media → PacketGate → RouteDestination Session Media × Bool
  unfolding pending_for
  update_destination_gate destination gate =
      let pending_gate = pending_for gate in
      if eqb PacketGate-discrete destination.gate gate
        && eqb pending-discrete destination.pending_gate pending_gate
      then (destination, false)
      else (record destination { gate = gate; pending_gate = pending_gate }, true)

  abbrev pub identity_of : RouteDestination Session Media → IdentityLookupKey Session Media
  identity_of destination = record {
    session_key = destination.session_key;
    media_id = destination.media_id;
  }

  unfoldable pub update_of : RouteDestination Session Media → GateUpdate Session Media
  update_of destination = record {
    session_key = destination.session_key;
    media_id = destination.media_id;
    identity_key = identity_of destination;
  }

  -- One update for each destination, the last one first.
  unfoldable pub benchmark_updates :
      List (RouteDestination Session Media) → List (GateUpdate Session Media)
  unfolding update_of
  benchmark_updates destinations = map update_of (reverse destinations)

module _ {Session Media : Type 0} (api : SessionKeys Session) (ids : MediaIds Media) where
  identity-discrete : Discrete (IdentityLookupKey Session Media)
  identity-discrete = hlevel (api.key.dec, ids.key.dec)

  -- The derived order: by the session key, and by the media id where these are equal.
  abbrev pub identity_key : Key (IdentityLookupKey Session Media)
  unfolding identity-discrete
  identity_key = record {
    dec = identity-discrete;
    before = λ a b.
        api.key.before a.session_key b.session_key
        || eqb api.key.dec a.session_key b.session_key && ids.key.before a.media_id b.media_id;
  }

  -- Room 21, worker 0.
  unfoldable pub benchmark_session_key : ℕ → Session
  benchmark_session_key index =
      api.new 21 0 (saturating_add index 1)
        (UserId.integer (i64_saturating_add (unwrap_or (i64_try_from index) (pos 0)) 1))

  unfoldable pub benchmark_destination : ℕ → RouteDestination Session Media
  unfolding benchmark_session_key
  benchmark_destination index = record {
    session_key = benchmark_session_key index;
    media_id = ids.new (saturating_add 1_000 index);
    active = not (index % 7 == 0);
    gate = if index % 11 == 0 then block_gate else open_gate;
    pending_gate = none;
  }

  unfoldable pub benchmark_destinations : ℕ → List (RouteDestination Session Media)
  unfolding benchmark_destination
  benchmark_destinations destination_count = tabulate benchmark_destination destination_count

  unfoldable pub media_id_index : List (RouteDestination Session Media) → Map Media ℕ
  unfolding reindex
  media_id_index destinations = reindex ids.key (λ d. d.media_id) destinations 0 []

  unfoldable pub identity_index :
      List (RouteDestination Session Media) → Map (IdentityLookupKey Session Media) ℕ
  unfolding reindex
  identity_index destinations = reindex identity_key identity_of destinations 0 []
