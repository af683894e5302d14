-- ===== src/Tests/Demux.antt =====
-- src/rtc_udp_demux.rs: tests and instances.
use o_sfu_benchmarks.Base.{
  ℕ, ◌<◌, ◌≡◌, ◌↔◌, ◌⊎◌, refl, arith, none, some, [], ◌∷◌, eqb, if◌then◌else◌, contains, retain_ne,
  ℕ_discrete,
}
use o_sfu_benchmarks.Base.Map.{get, insert, remove}
use o_sfu_benchmarks.Tests.Keys.{PlainKey, PlainKey-discrete, plain_keys, key_at}
use o_sfu_benchmarks.Demux.Defs.{
  SocketAddr, SocketAddr-discrete, RemoteAddrDemux, default, remember_remote_addr, push_remote_addr,
  forget_previous, remove_remote_addr_from_session, replace_session_remote_candidate_addrs,
}
use o_sfu_benchmarks.Demux.Routes.{IsConsistent, remember-IsConsistent, addrs_of}
use o_sfu_benchmarks.Demux.Candidates.{
  suggests, IsCandidateConsistent, default-IsCandidateConsistent, replace-IsCandidateConsistent,
  suggests-replace,
}
use o_sfu_benchmarks.Demux.Fixture.{
  RecoveryFixture, new_recovery, indexed_lookup_cycle, recovery_scan_cycle, DemuxFixture, new_demux,
  cached_lookup_cycle, linear_scan_cycle,
}
use o_sfu_benchmarks.Demux.Recovery.{new_recovery-hits}
use o_sfu_benchmarks.Demux.Cycles.{
  default-IsConsistent, cached-eq-linear_scan, new_demux-hits, new_demux-eq-none_iff,
}

abbrev home : SocketAddr
home = record { ip = 0x7f00_0001; port = 10_000 }

abbrev away : SocketAddr
away = record { ip = 0x7f00_0001; port = 10_001 }

-- One address learned for session 1.
abbrev learned : RemoteAddrDemux PlainKey
learned = (remember_remote_addr plain_keys.key default home (key_at 1)).0

learned-IsConsistent : IsConsistent plain_keys.key learned
learned-IsConsistent =
    remember-IsConsistent plain_keys.key default home (key_at 1) (default-IsConsistent plain_keys)

-- The address moves to session 2, and session 1 is left without a list.
moves :
    let moved = (remember_remote_addr plain_keys.key learned home (key_at 2)).0 in
    (get plain_keys.key (key_at 1) moved.remote_addrs_by_session ≡ none)
    × (addrs_of plain_keys.key moved (key_at 2) ≡ home ∷ [])
unfolding remember_remote_addr push_remote_addr forget_previous remove_remote_addr_from_session get
    insert remove contains retain_ne SocketAddr-discrete PlainKey-discrete ℕ_discrete
moves = (refl, refl)

remember-IsConsistent_example :
    IsConsistent plain_keys.key (remember_remote_addr plain_keys.key learned home (key_at 2)).0
remember-IsConsistent_example =
    remember-IsConsistent plain_keys.key learned home (key_at 2) learned-IsConsistent

-- Session 1 is a candidate for two addresses.
abbrev offered : RemoteAddrDemux PlainKey
offered =
    replace_session_remote_candidate_addrs plain_keys.key default (key_at 1) (home ∷ away ∷ [])

offered-IsCandidateConsistent : IsCandidateConsistent plain_keys.key offered
offered-IsCandidateConsistent =
    replace-IsCandidateConsistent plain_keys.key default (key_at 1) (home ∷ away ∷ [])
      (default-IsCandidateConsistent plain_keys.key)

replace-IsCandidateConsistent_example :
    IsCandidateConsistent plain_keys.key
      (replace_session_remote_candidate_addrs plain_keys.key offered (key_at 1) (away ∷ []))
replace-IsCandidateConsistent_example =
    replace-IsCandidateConsistent plain_keys.key offered (key_at 1) (away ∷ [])
      offered-IsCandidateConsistent

suggests-replace_example :
    suggests plain_keys.key
      (replace_session_remote_candidate_addrs plain_keys.key offered (key_at 1) (away ∷ []))
      home
      (key_at 1)
    ≡ (if eqb PlainKey-discrete (key_at 1) (key_at 1)
        then contains SocketAddr-discrete home (away ∷ [])
        else suggests plain_keys.key offered home (key_at 1))
suggests-replace_example =
    suggests-replace plain_keys.key offered (key_at 1) (away ∷ []) (key_at 1) home
      offered-IsCandidateConsistent

-- Session 1 is live, and one of the two probes is known.
abbrev small_fixture : DemuxFixture plain_keys
small_fixture = record {
  demux = learned;
  live_sessions = key_at 1 ∷ [];
  probe_addrs = home ∷ away ∷ [];
}

cached-eq-linear_scan_example :
    cached_lookup_cycle plain_keys small_fixture ≡ linear_scan_cycle plain_keys small_fixture
cached-eq-linear_scan_example = cached-eq-linear_scan plain_keys small_fixture learned-IsConsistent

new_demux-hits_example :
    (f : DemuxFixture plain_keys) × (new_demux plain_keys 3 ≡ some f)
    × IsConsistent plain_keys.key f.demux
    × (cached_lookup_cycle plain_keys f ≡ 3)
    × (linear_scan_cycle plain_keys f ≡ 3)
new_demux-hits_example = new_demux-hits plain_keys 3 (omega arith) (omega arith)

new_demux-eq-none_iff_example :
    (new_demux plain_keys 60_000 ≡ none) ↔ ((◌≡◌ {A = ℕ} 60_000 0) ⊎ (55_536 < 60_000))
new_demux-eq-none_iff_example = new_demux-eq-none_iff plain_keys 60_000

new_recovery-hits_example :
    (f : RecoveryFixture plain_keys) × (new_recovery plain_keys 3 ≡ some f)
    × IsCandidateConsistent plain_keys.key f.candidate_index
    × (indexed_lookup_cycle plain_keys f ≡ 3)
    × (recovery_scan_cycle plain_keys f ≡ 3)
new_recovery-hits_example = new_recovery-hits plain_keys 3 (omega arith) (omega arith)
