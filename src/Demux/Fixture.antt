-- ===== src/Demux/Fixture.antt =====
-- The fixtures of src/rtc_udp_demux.rs: how they are built from an index range, and the indexed
-- and the scanning way to count the probes that hit. `SessionKeys` is the interface of
-- o-sfu-core's session keys.
use o_sfu_benchmarks.Base.{
  ◌>>=◌, ℕ, zero, suc, ◌+◌, ◌^◌, Bool, false, Option, none, some, List, [], ◌∷◌, ◌++◌, ltb, ◌==◌,
  if◌then◌else◌, contains, is_empty, any, length, saturating_add, ◌&&◌, not,
}
use o_sfu_benchmarks.Base.Int.{i64_try_from}
use o_sfu_benchmarks.Session.{SessionKeys, UserId}
use o_sfu_benchmarks.Demux.Defs.{
  SocketAddr, SocketAddr-discrete, RemoteAddrDemux, default, session_key_for_remote_addr,
  remember_remote_addr, session_entries, replace_session_remote_candidate_addrs,
  candidate_sessions_for_source_addr,
}

-- 127.0.0.1
abbrev pub localhost : ℕ
localhost = 0x7f00_0001

abbrev pub first_remote_port : ℕ
first_remote_port = 10_000

-- `u16::try_from(usize)`
abbrev pub u16_try_from : ℕ → Option ℕ
u16_try_from n = if ltb n (2 ^ 16) then some n else none

-- `u16::checked_add`
abbrev pub u16_checked_add : ℕ → ℕ → Option ℕ
u16_checked_add a b = if ltb (a + b) (2 ^ 16) then some (a + b) else none

unfoldable pub benchmark_remote_addr : ℕ → Option SocketAddr
benchmark_remote_addr idx = do
  offset ← u16_try_from idx
  port ← u16_checked_add first_remote_port offset
  some (record { ip = localhost; port = port })

module _ {Session : Type 0} (api : SessionKeys Session) where
  unfoldable pub benchmark_session_key : ℕ → Option Session
  benchmark_session_key idx = do
    session_id ← i64_try_from idx
    some (api.new 1 0 (saturating_add 1 idx) (UserId.integer session_id))

  -- `BTreeSet<TransportSessionKey>`, as far as `insert` and `contains` tell.
  unfoldable pub live_insert : Session → List Session → List Session
  live_insert s live = if contains api.key.dec s live then live else s ∷ live

  pub record DemuxFixture : Type 0 where
    pub demux : RemoteAddrDemux Session
    pub live_sessions : List Session
    pub probe_addrs : List SocketAddr

  -- The loop of `RtcUdpDemuxBenchmarkFixture::new` after `n` rounds.
  unfoldable pub demux_rounds : ℕ → Option DemuxFixture
  demux_rounds zero = some (record { demux = default; live_sessions = []; probe_addrs = [] })
  demux_rounds (suc n) = do
    f ← demux_rounds n
    session_key ← benchmark_session_key n
    remote_addr ← benchmark_remote_addr n
    some (record {
      demux = (remember_remote_addr api.key f.demux remote_addr session_key).0;
      live_sessions = live_insert session_key f.live_sessions;
      probe_addrs = f.probe_addrs ++ remote_addr ∷ [];
    })

  unfoldable pub new_demux : ℕ → Option DemuxFixture
  new_demux session_count = if session_count == 0 then none else demux_rounds session_count

  abbrev pub is_live : List Session → Option Session → Bool
  is_live live none = false
  is_live live (some s) = contains api.key.dec s live

  -- One round of each loop tests one address.
  unfoldable pub cached_hit : DemuxFixture → SocketAddr → Bool
  cached_hit f a = is_live f.live_sessions (session_key_for_remote_addr api.key f.demux a)

  unfoldable pub scan_hit : DemuxFixture → SocketAddr → Bool
  scan_hit f a =
      any (λ e. contains api.key.dec e.0 f.live_sessions && contains SocketAddr-discrete a e.1)
        (session_entries api.key f.demux)

  pub record RecoveryFixture : Type 0 where
    pub candidate_index : RemoteAddrDemux Session
    pub probe_addrs : List SocketAddr
    pub session_candidate_addrs : List (Session × List SocketAddr)

  -- The loop of `RtcUnknownSourceRecoveryBenchmarkFixture::new` after `n` rounds.
  unfoldable pub recovery_rounds : ℕ → Option RecoveryFixture
  recovery_rounds zero =
      some (record { candidate_index = default; probe_addrs = []; session_candidate_addrs = [] })
  recovery_rounds (suc n) = do
    f ← recovery_rounds n
    session_key ← benchmark_session_key n
    remote_addr ← benchmark_remote_addr n
    some (record {
      candidate_index =
          replace_session_remote_candidate_addrs api.key f.candidate_index session_key
            (remote_addr ∷ []);
      probe_addrs = f.probe_addrs ++ remote_addr ∷ [];
      session_candidate_addrs = f.session_candidate_addrs ++ (session_key, remote_addr ∷ []) ∷ [];
    })

  unfoldable pub new_recovery : ℕ → Option RecoveryFixture
  new_recovery session_count = if session_count == 0 then none else recovery_rounds session_count

  -- `is_some_and(|session_keys| !session_keys.is_empty())`
  abbrev pub has_sessions : Option (List Session) → Bool
  has_sessions none = false
  has_sessions (some session_keys) = not (is_empty session_keys)

  unfoldable pub indexed_hit : RecoveryFixture → SocketAddr → Bool
  indexed_hit f a = has_sessions (candidate_sessions_for_source_addr api.key f.candidate_index a)

  unfoldable pub recovery_scan_hit : RecoveryFixture → SocketAddr → Bool
  recovery_scan_hit f a = any (λ e. contains SocketAddr-discrete a e.1) f.session_candidate_addrs

-- The counting loop that the four cycles share, from a count of hits.
unfoldable pub count_hits : (SocketAddr → Bool) → ℕ → List SocketAddr → ℕ
count_hits hit hits [] = hits
count_hits hit hits (a ∷ addrs) =
    count_hits hit (if hit a then saturating_add hits 1 else hits) addrs

module _ {Session : Type 0} (api : SessionKeys Session) where
  unfoldable pub cached_lookup_cycle : DemuxFixture api → ℕ
  cached_lookup_cycle f = count_hits (cached_hit api f) 0 f.probe_addrs

  unfoldable pub linear_scan_cycle : DemuxFixture api → ℕ
  linear_scan_cycle f = count_hits (scan_hit api f) 0 f.probe_addrs

  unfoldable pub lookup_count_u64 : DemuxFixture api → ℕ
  lookup_count_u64 f = length f.probe_addrs

  unfoldable pub indexed_lookup_cycle : RecoveryFixture api → ℕ
  indexed_lookup_cycle f = count_hits (indexed_hit api f) 0 f.probe_addrs

  unfoldable pub recovery_scan_cycle : RecoveryFixture api → ℕ
  recovery_scan_cycle f = count_hits (recovery_scan_hit api f) 0 f.probe_addrs
