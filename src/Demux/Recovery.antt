-- ===== src/Demux/Recovery.antt =====
-- `RtcUnknownSourceRecoveryBenchmarkFixture` of src/rtc_udp_demux.rs: what `new` builds and the two
-- cycles count.
use o_sfu_benchmarks.Base.{
  ℕ, zero, suc, ◌+◌, ◌≤◌, ◌<◌, true, false, some, List, [], ◌∷◌, ◌++◌, ◌≡◌, refl, sym, ap, ◌∙◌, inl,
  inr, arith, eqb, eqb_self, eqb_iff, contains, contains-push, contains-cons, contains_nil,
  contains_of_empty, length, length-append, any-append, Option-cases, Bool-cases, saturating_add,
}
use o_sfu_benchmarks.Base.Int.{pos}
use o_sfu_benchmarks.Base.Map.{get, get_nil}
use o_sfu_benchmarks.Session.{SessionKeys, UserId}
use o_sfu_benchmarks.Demux.Defs.{
  SocketAddr, SocketAddr-discrete, addr_key, default, replace_session_remote_candidate_addrs,
}
use o_sfu_benchmarks.Demux.Candidates.{
  suggests, IsCandidateConsistent, default-IsCandidateConsistent, suggests-replace,
  replace-IsCandidateConsistent,
}
use o_sfu_benchmarks.Demux.Fixture.{
  RecoveryFixture, recovery_rounds, new_recovery, indexed_hit, recovery_scan_hit,
  indexed_lookup_cycle, recovery_scan_cycle, localhost,
}
use o_sfu_benchmarks.Demux.Cycles.{count_hits_all, remote_addr_fits, session_key_fits}

module _ {Session : Type 0} (api : SessionKeys Session) where
  -- What the loop of `new` has built after `n` rounds: the sessions so far have the connection ids
  -- up to `n`.
  record IsRecovered (n : ℕ) (f : RecoveryFixture api) : Type 0 where
    consistent : IsCandidateConsistent api.key f.candidate_index
    numbered :
        (b : SocketAddr) (t : Session)
        → suggests api.key f.candidate_index b t ≡ true
        → api.connection_id t ≤ n
    known :
        (b : SocketAddr)
        → contains SocketAddr-discrete b f.probe_addrs ≡ true
        → (t : Session) × (suggests api.key f.candidate_index b t ≡ true)
    scanned :
        (b : SocketAddr) → recovery_scan_hit api f b ≡ contains SocketAddr-discrete b f.probe_addrs
    probe_count : length f.probe_addrs ≡ n

  abbrev after_recovery : RecoveryFixture api → Session → SocketAddr → RecoveryFixture api
  after_recovery f s a = record {
    candidate_index = replace_session_remote_candidate_addrs api.key f.candidate_index s (a ∷ []);
    probe_addrs = f.probe_addrs ++ a ∷ [];
    session_candidate_addrs = f.session_candidate_addrs ++ (s, a ∷ []) ∷ [];
  }

  contains_one :
      (b a : SocketAddr) → contains SocketAddr-discrete b (a ∷ []) ≡ eqb SocketAddr-discrete b a
  contains_one b a =
      ground (arith, contains-cons SocketAddr-discrete b a [], contains_nil SocketAddr-discrete b)

  other_session :
      (n : ℕ) (t s : Session)
      → api.connection_id t ≤ n
      → api.connection_id s ≡ suc n
      → eqb api.key.dec t s ≡ false
  other_session n t s old new_id = elim (Bool-cases (eqb api.key.dec t s)) [
    | inl same ↦ absurd (omega (arith, ap api.connection_id ((eqb_iff api.key.dec t s).0 same)))
    | inr apart ↦ apart
  ]

  -- A session that is not among those so far keeps what they suggest.
  known-after :
      (n : ℕ) (f : RecoveryFixture api) (s : Session) (a b : SocketAddr)
      → IsRecovered n f
      → api.connection_id s ≡ suc n
      → contains SocketAddr-discrete b (f.probe_addrs ++ a ∷ []) ≡ true
      → (t : Session) × (suggests api.key (after_recovery f s a).candidate_index b t ≡ true)
  known-after n f s a b r new_id m = elim (Bool-cases (eqb SocketAddr-discrete b a)) [
    | inl same ↦ (
      s,
      ground (
        arith,
        suggests-replace api.key f.candidate_index s (a ∷ []) s b r.consistent,
        contains_one b a,
        eqb_self api.key.dec s,
      ),
    )
    | inr other ↦
        let (t, there) =
          r.known b (ground (arith, contains-push SocketAddr-discrete b a f.probe_addrs)) in
        (
          t,
          ground (
            arith,
            there,
            suggests-replace api.key f.candidate_index s (a ∷ []) t b r.consistent,
            other_session n t s (r.numbered b t there) new_id,
          ),
        )
  ]

  numbered-after :
      (n : ℕ) (f : RecoveryFixture api) (s : Session) (a b : SocketAddr) (t : Session)
      → IsRecovered n f
      → api.connection_id s ≡ suc n
      → suggests api.key (after_recovery f s a).candidate_index b t ≡ true
      → api.connection_id t ≤ suc n
  numbered-after n f s a b t r new_id h = elim (api.key.dec t s) [
    | yes e ↦ omega (arith, ap api.connection_id e)
    | no u ↦
        let kept : suggests api.key f.candidate_index b t ≡ true =
          ground
            (arith, h, suggests-replace api.key f.candidate_index s (a ∷ []) t b r.consistent) in
        omega (arith, r.numbered b t kept)
  ]

  round-IsRecovered :
      (n : ℕ) (f : RecoveryFixture api) (s : Session) (a : SocketAddr)
      → IsRecovered n f
      → api.connection_id s ≡ suc n
      → IsRecovered (suc n) (after_recovery f s a)
  unfolding recovery_scan_hit
  round-IsRecovered n f s a r new_id = record {
    consistent = replace-IsCandidateConsistent api.key f.candidate_index s (a ∷ []) r.consistent;
    numbered = λ b t h. numbered-after n f s a b t r new_id h;
    known = λ b m. known-after n f s a b r new_id m;
    scanned = λ b. ground (
      arith,
      r.scanned b,
      any-append (λ e. contains SocketAddr-discrete b e.1) f.session_candidate_addrs
          ((s, a ∷ []) ∷ []),
      contains_one b a,
      contains-push SocketAddr-discrete b a f.probe_addrs,
    );
    probe_count = omega (arith, r.probe_count, length-append f.probe_addrs (a ∷ []));
  }

  rounds-IsRecovered :
      (n : ℕ)
      → n ≤ 55_536
      → (f : RecoveryFixture api) × (recovery_rounds api n ≡ some f) × IsRecovered n f
  unfolding recovery_rounds recovery_scan_hit
  rounds-IsRecovered zero h = (
    record { candidate_index = default; probe_addrs = []; session_candidate_addrs = [] },
    refl,
    record {
      consistent = default-IsCandidateConsistent api.key;
      numbered = λ b t h. absurd (
          ground (
            arith,
            h,
            (default-IsCandidateConsistent api.key).agrees b t,
            contains_nil SocketAddr-discrete b,
            get_nil {V = List SocketAddr} api.key t,
          ));
      known = λ b m. absurd (ground (arith, contains_nil SocketAddr-discrete b));
      scanned = λ b. sym (contains_nil SocketAddr-discrete b);
      probe_count = refl;
    },
  )
  rounds-IsRecovered (suc n) h =
      let (f, built, r) = rounds-IsRecovered n (omega arith) in
      let user = UserId.integer (pos n) in
      let s = api.new 1 0 (saturating_add 1 n) user in
      let a : SocketAddr = record { ip = localhost; port = 10_000 + n } in
      (
        after_recovery f s a,
        rw (built, session_key_fits api n h, remote_addr_fits api n h) refl,
        round-IsRecovered n f s a r
            (api.connection_id-new 1 0 (saturating_add 1 n) user ∙ omega arith),
      )

  indexed_hit-known :
      (n : ℕ) (f : RecoveryFixture api) (b : SocketAddr)
      → IsRecovered n f
      → contains SocketAddr-discrete b f.probe_addrs ≡ true
      → indexed_hit api f b ≡ true
  unfolding indexed_hit
  indexed_hit-known n f b r m =
      let (t, there) = r.known b m in
      elim (Option-cases (get addr_key b f.candidate_index.remote_candidate_addr_index)) [
        | inl absent ↦ ground (arith, there, contains_nil api.key.dec t)
        | inr (l, listed) ↦ ground (arith, there, listed, contains_of_empty api.key.dec t l)
      ]

  -- For 1 to 55,536 sessions `new` builds a fixture whose candidate index is consistent, and both
  -- cycles count a hit for every session.
  pub new_recovery-hits :
      (n : ℕ)
      → 0 < n
      → n ≤ 55_536
      → (f : RecoveryFixture api) × (new_recovery api n ≡ some f)
        × IsCandidateConsistent api.key f.candidate_index
        × (indexed_lookup_cycle api f ≡ n)
        × (recovery_scan_cycle api f ≡ n)
  unfolding new_recovery indexed_lookup_cycle recovery_scan_cycle
  new_recovery-hits n pos_n h =
      let (f, built, r) = rounds-IsRecovered n h in
      let indexed =
        count_hits_all (indexed_hit api f) 0 f.probe_addrs (λ b m. indexed_hit-known n f b r m)
          (omega (arith, r.probe_count)) in
      let scanned =
        count_hits_all (recovery_scan_hit api f) 0 f.probe_addrs (λ b m. r.scanned b ∙ m)
          (omega (arith, r.probe_count)) in
      (
        f,
        ground (arith, built),
        r.consistent,
        indexed ∙ omega (arith, r.probe_count),
        scanned ∙ omega (arith, r.probe_count),
      )
