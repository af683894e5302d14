-- ===== src/ColdPath/Ingress.antt =====
-- `IngressColdPathBenchmarkFixture` of src/packet_loop_cold_path.rs. A result is `none` where the
-- code would panic: on a remainder by zero sessions.
pub mod Laws
use Prim.Native.Nat.{bit_xor}
use o_sfu_benchmarks.Base.{
  ◌>>=◌, ℕ, zero, suc, ◌+◌, ◌%◌, ◌==◌, Option, none, some, List, [], ◌∷◌, length, get_elem?,
  tabulate, if◌then◌else◌, wrapping_add, rotate_left,
}
use o_sfu_benchmarks.Session.{SessionKeys}
use o_sfu_benchmarks.ColdPath.Checksum.{session_checksum, benchmark_session_key, packet_fingerprint}

pub data IngressEventKind : Type 0 where
  cached_route : IngressEventKind
  malformed : IngressEventKind
  recent_miss : IngressEventKind
  source_rate_limited : IngressEventKind
  recovery_miss : IngressEventKind
  recovery_hit : IngressEventKind

pub record IngressEvent : Type 0 where
  pub kind : IngressEventKind
  pub session_index : ℕ
  pub payload_len : ℕ
  pub packet_fingerprint : ℕ

pub record IngressAccounting : Type 0 where
  pub routed : ℕ
  pub dropped : ℕ
  pub recovered : ℕ
  pub diagnostics : ℕ

abbrev pub default : IngressAccounting
default = record { routed = 0; dropped = 0; recovered = 0; diagnostics = 0 }

pub record IngressFixture (Session : Type 0) : Type 0 where
  pub events : List IngressEvent
  pub sessions : List Session

unfoldable pub event_kind : ℕ → IngressEventKind
event_kind index =
    if index % 997 == 0
    then malformed
    else if index % 761 == 0
    then source_rate_limited
    else if index % 509 == 0
    then recovery_miss
    else if index % 251 == 0
    then recovery_hit
    else if index % 193 == 0
    then recent_miss
    else cached_route

abbrev pub session_count : ℕ
session_count = 256

-- The indices are below 2 ^ 16, so the conversions to `u16` change nothing.
unfoldable pub event_at : ℕ → IngressEvent
unfolding event_kind packet_fingerprint
event_at index = record {
  kind = event_kind index;
  session_index = index % session_count;
  payload_len = 96 + index % 1200;
  packet_fingerprint = packet_fingerprint index;
}

-- A drop of each kind counts one packet and mixes in the rotated fingerprint.
unfoldable pub account_drop : ℕ → IngressAccounting → IngressEvent → IngressAccounting
account_drop rotation accounting event = record accounting {
  dropped = wrapping_add accounting.dropped 1;
  diagnostics = wrapping_add accounting.diagnostics (rotate_left event.packet_fingerprint rotation);
}

unfoldable pub account_malformed_datagram : IngressAccounting → IngressEvent → IngressAccounting
account_malformed_datagram = account_drop 7

unfoldable pub account_recent_miss_drop : IngressAccounting → IngressEvent → IngressAccounting
account_recent_miss_drop = account_drop 13

unfoldable pub account_source_rate_limited_drop :
    IngressAccounting → IngressEvent → IngressAccounting
account_source_rate_limited_drop = account_drop 19

unfoldable pub account_recovery_miss_drop : IngressAccounting → IngressEvent → IngressAccounting
account_recovery_miss_drop = account_drop 23

unfoldable pub finish_ingress_accounting : IngressAccounting → ℕ
finish_ingress_accounting accounting =
    bit_xor
      (bit_xor (bit_xor accounting.routed (rotate_left accounting.dropped 7))
        (rotate_left accounting.recovered 13))
      accounting.diagnostics

module _ {Session : Type 0} (api : SessionKeys Session) where
  unfoldable pub new : ℕ → IngressFixture Session
  unfolding event_at benchmark_session_key
  new event_count = record {
    events = tabulate event_at event_count;
    sessions = tabulate (benchmark_session_key api) session_count;
  }

  unfoldable pub session_at : List Session → ℕ → Option Session
  session_at sessions index =
      if length sessions == 0 then none else get_elem? sessions (index % length sessions)

  unfoldable pub account_cached_route :
      IngressAccounting → IngressEvent → List Session → Option IngressAccounting
  unfolding session_at session_checksum
  account_cached_route accounting event sessions = do
    session ← session_at sessions event.session_index
    some (record accounting {
      routed = wrapping_add accounting.routed 1;
      diagnostics = wrapping_add accounting.diagnostics (
          bit_xor (bit_xor (session_checksum api session) event.packet_fingerprint)
            event.payload_len);
    })

  unfoldable pub account_recovery_hit :
      IngressAccounting → IngressEvent → List Session → Option IngressAccounting
  account_recovery_hit accounting event sessions =
      account_cached_route (record accounting { recovered = wrapping_add accounting.recovered 1 })
        event sessions

  -- The `match` of `inline_rare_branch_cycle`, its statements in the arms.
  unfoldable pub inline_arm :
      IngressEventKind → IngressAccounting → IngressEvent → List Session → Option IngressAccounting
  inline_arm cached_route accounting event sessions = account_cached_route accounting event sessions
  inline_arm malformed accounting event sessions = some (record accounting {
    dropped = wrapping_add accounting.dropped 1;
    diagnostics = wrapping_add accounting.diagnostics (rotate_left event.packet_fingerprint 7);
  })
  inline_arm recent_miss accounting event sessions = some (record accounting {
    dropped = wrapping_add accounting.dropped 1;
    diagnostics = wrapping_add accounting.diagnostics (rotate_left event.packet_fingerprint 13);
  })
  inline_arm source_rate_limited accounting event sessions = some (record accounting {
    dropped = wrapping_add accounting.dropped 1;
    diagnostics = wrapping_add accounting.diagnostics (rotate_left event.packet_fingerprint 19);
  })
  inline_arm recovery_miss accounting event sessions = some (record accounting {
    dropped = wrapping_add accounting.dropped 1;
    diagnostics = wrapping_add accounting.diagnostics (rotate_left event.packet_fingerprint 23);
  })
  inline_arm recovery_hit accounting event sessions =
      let recovered = record accounting { recovered = wrapping_add accounting.recovered 1 } in
      account_cached_route recovered event sessions

  -- The `match` of `cold_rare_branch_cycle`, a call in each arm.
  unfoldable pub cold_arm :
      IngressEventKind → IngressAccounting → IngressEvent → List Session → Option IngressAccounting
  cold_arm cached_route accounting event sessions = account_cached_route accounting event sessions
  cold_arm malformed accounting event sessions = some (account_malformed_datagram accounting event)
  cold_arm recent_miss accounting event sessions = some (account_recent_miss_drop accounting event)
  cold_arm source_rate_limited accounting event sessions =
      some (account_source_rate_limited_drop accounting event)
  cold_arm recovery_miss accounting event sessions =
      some (account_recovery_miss_drop accounting event)
  cold_arm recovery_hit accounting event sessions = account_recovery_hit accounting event sessions

  -- The `for` loop of both cycles.
  unfoldable pub account_events :
      (IngressEventKind
        → IngressAccounting
        → IngressEvent
        → List Session
        → Option IngressAccounting)
      → List IngressEvent
      → List Session
      → IngressAccounting
      → Option IngressAccounting
  account_events arm [] sessions accounting = some accounting
  account_events arm (event ∷ events) sessions accounting =
      arm event.kind accounting event sessions >>= account_events arm events sessions

  unfoldable pub inline_rare_branch_cycle : IngressFixture Session → Option ℕ
  unfolding account_events inline_arm account_cached_route
  inline_rare_branch_cycle f = do
    accounting ← account_events inline_arm f.events f.sessions default
    some (finish_ingress_accounting accounting)

  unfoldable pub cold_rare_branch_cycle : IngressFixture Session → Option ℕ
  unfolding account_events cold_arm account_cached_route
  cold_rare_branch_cycle f = do
    accounting ← account_events cold_arm f.events f.sessions default
    some (finish_ingress_accounting accounting)
