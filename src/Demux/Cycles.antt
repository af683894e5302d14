-- ===== src/Demux/Cycles.antt =====
-- `RtcUdpDemuxBenchmarkFixture` of src/rtc_udp_demux.rs: what `new` builds and the two cycles count.
use o_sfu_benchmarks.Base.{
  ℕ, zero, suc, ◌+◌, ◌≤◌, ◌<◌, Bool, true, none, some, List, [], ◌∷◌, ◌++◌, ◌≡◌, ◌↔◌, refl, sym,
  ◌∙◌, inl, inr, ◌⊎◌, arith, eqb, eqb_self, if◌then◌else◌, contains, contains-push, contains-cons,
  contains_nil, length, length-append, ◌&&◌, ◌||◌, Option-cases, u64_max, saturating_add, dec_le,
}
use o_sfu_benchmarks.Base.Map.{get, any_of_get, get_of_any, get_nil}
use o_sfu_benchmarks.Base.Int.{pos}
use o_sfu_benchmarks.Session.{SessionKeys, UserId}
use o_sfu_benchmarks.Demux.Defs.{
  SocketAddr, SocketAddr-discrete, addr_key, default, session_key_for_remote_addr,
  remember_remote_addr,
}
use o_sfu_benchmarks.Demux.Routes.{IsConsistent, remember-IsConsistent, route-remember}
use o_sfu_benchmarks.Demux.Fixture.{
  benchmark_remote_addr, benchmark_session_key, live_insert, DemuxFixture, demux_rounds, new_demux,
  cached_hit, scan_hit, count_hits, cached_lookup_cycle, linear_scan_cycle, localhost,
}

pub count_hits_congr :
    (p q : SocketAddr → Bool) (n : ℕ) (addrs : List SocketAddr)
    → ((a : SocketAddr) → p a ≡ q a)
    → count_hits p n addrs ≡ count_hits q n addrs
unfolding count_hits
count_hits_congr p q n [] h = refl
count_hits_congr p q n (a ∷ addrs) h =
    rw (h a) (count_hits_congr p q (if q a then saturating_add n 1 else n) addrs h)

-- Where every address hits, and the count fits, the loop counts them all.
pub count_hits_all :
    (p : SocketAddr → Bool) (n : ℕ) (addrs : List SocketAddr)
    → ((a : SocketAddr) → contains SocketAddr-discrete a addrs ≡ true → p a ≡ true)
    → n + length addrs ≤ u64_max
    → count_hits p n addrs ≡ n + length addrs
unfolding count_hits
count_hits_all p n [] h fits = omega arith
count_hits_all p n (a ∷ addrs) h fits =
    let first : p a ≡ true =
      h a (rw (contains-cons SocketAddr-discrete a a addrs, eqb_self SocketAddr-discrete a) refl) in
    let rest : (b : SocketAddr) → contains SocketAddr-discrete b addrs ≡ true → p b ≡ true =
      λ b m. h b (ground (arith, contains-cons SocketAddr-discrete b a addrs)) in
    rw first (count_hits_all p (saturating_add n 1) addrs rest (omega arith) ∙ omega arith)

module _ {Session : Type 0} (api : SessionKeys Session) where
  cached_of_scan :
      (f : DemuxFixture api) (a : SocketAddr)
      → IsConsistent api.key f.demux
      → scan_hit api f a ≡ true
      → cached_hit api f a ≡ true
  unfolding scan_hit cached_hit
  cached_of_scan f a c h =
      let (s, l, there, both) = get_of_any api.key _ f.demux.remote_addrs_by_session c.keyed h in
      ground (arith, c.agrees s a)

  scan_of_cached :
      (f : DemuxFixture api) (a : SocketAddr)
      → IsConsistent api.key f.demux
      → cached_hit api f a ≡ true
      → scan_hit api f a ≡ true
  unfolding scan_hit cached_hit
  scan_of_cached f a c h = elim (Option-cases (get addr_key a f.demux.remote_addr_index)) [
    | inl absent ↦ ground arith
    | inr (s, there) ↦ elim (Option-cases (get api.key s f.demux.remote_addrs_by_session)) [
      | inl unlisted ↦
          ground (arith, c.agrees s a, contains_nil SocketAddr-discrete a, eqb_self api.key.dec s)
      | inr (l, listed) ↦
          any_of_get api.key
            (λ t addrs.
              contains api.key.dec t f.live_sessions && contains SocketAddr-discrete a addrs)
            s l f.demux.remote_addrs_by_session listed (ground (arith, c.agrees s a))
    ]
  ]

  -- Looking the address up and scanning every session's list find the same.
  cached_hit-eq-scan_hit :
      (f : DemuxFixture api) (a : SocketAddr)
      → IsConsistent api.key f.demux
      → cached_hit api f a ≡ scan_hit api f a
  cached_hit-eq-scan_hit f a c = ground (arith, cached_of_scan f a c, scan_of_cached f a c)

  -- On a consistent demultiplexer the two cycles of the benchmark count the same hits, whatever
  -- the live sessions and the probes are.
  pub cached-eq-linear_scan :
      (f : DemuxFixture api)
      → IsConsistent api.key f.demux
      → cached_lookup_cycle api f ≡ linear_scan_cycle api f
  unfolding cached_lookup_cycle linear_scan_cycle
  cached-eq-linear_scan f c =
      count_hits_congr (cached_hit api f) (scan_hit api f) 0 f.probe_addrs
        (λ a. cached_hit-eq-scan_hit f a c)

  pub default-IsConsistent : IsConsistent api.key default
  default-IsConsistent = record {
    agrees = λ s a. ground (
      arith,
      get_nil {V = List SocketAddr} api.key s,
      get_nil {V = Session} addr_key a,
      contains_nil SocketAddr-discrete a,
    );
    no_empty = λ s. ground (arith, get_nil {V = List SocketAddr} api.key s);
    keyed = tt;
  }

  -- What the loop of `new` has built after `n` rounds.
  pub record IsBuilt (n : ℕ) (f : DemuxFixture api) : Type 0 where
    pub consistent : IsConsistent api.key f.demux
    pub all_hit :
        (a : SocketAddr)
        → contains SocketAddr-discrete a f.probe_addrs ≡ true
        → cached_hit api f a ≡ true
    pub probe_count : length f.probe_addrs ≡ n

  live-live_insert :
      (s t : Session) (live : List Session)
      → contains api.key.dec t (live_insert api s live)
        ≡ (eqb api.key.dec t s || contains api.key.dec t live)
  unfolding live_insert
  live-live_insert s t live = ground (arith, contains-cons api.key.dec t s live)

  abbrev after_round : DemuxFixture api → Session → SocketAddr → DemuxFixture api
  after_round f s a = record {
    demux = (remember_remote_addr api.key f.demux a s).0;
    live_sessions = live_insert api s f.live_sessions;
    probe_addrs = f.probe_addrs ++ a ∷ [];
  }

  cached_hit-after_round :
      (n : ℕ) (f : DemuxFixture api) (s : Session) (a c : SocketAddr)
      → IsBuilt n f
      → contains SocketAddr-discrete c (f.probe_addrs ++ a ∷ []) ≡ true
      → cached_hit api (after_round f s a) c ≡ true
  unfolding cached_hit
  cached_hit-after_round n f s a c b m =
      elim (Option-cases (session_key_for_remote_addr api.key f.demux c)) [
        | inl absent ↦ ground (
          arith,
          b.all_hit c,
          contains-push SocketAddr-discrete c a f.probe_addrs,
          route-remember api.key f.demux a s c,
          live-live_insert s s f.live_sessions,
        )
        | inr (t, there) ↦ ground (
          arith,
          b.all_hit c,
          contains-push SocketAddr-discrete c a f.probe_addrs,
          route-remember api.key f.demux a s c,
          live-live_insert s s f.live_sessions,
          live-live_insert s t f.live_sessions,
        )
      ]

  round-IsBuilt :
      (n : ℕ) (f : DemuxFixture api) (s : Session) (a : SocketAddr)
      → IsBuilt n f
      → IsBuilt (suc n) (after_round f s a)
  round-IsBuilt n f s a b = record {
    consistent = remember-IsConsistent api.key f.demux a s b.consistent;
    all_hit = λ c m. cached_hit-after_round n f s a c b m;
    probe_count = omega (arith, b.probe_count, length-append f.probe_addrs (a ∷ []));
  }

  pub remote_addr_fits :
      (n : ℕ)
      → n < 55_536
      → benchmark_remote_addr n ≡ some (record { ip = localhost; port = 10_000 + n })
  unfolding benchmark_remote_addr
  remote_addr_fits n h = ground arith

  remote_addr_overflows : (n : ℕ) → 55_536 ≤ n → benchmark_remote_addr n ≡ none
  unfolding benchmark_remote_addr
  remote_addr_overflows n h = ground arith

  pub session_key_fits :
      (n : ℕ)
      → n < 55_536
      → benchmark_session_key api n
        ≡ some (api.new 1 0 (saturating_add 1 n) (UserId.integer (pos n)))
  unfolding benchmark_session_key
  session_key_fits n h = ground arith

  rounds-IsBuilt :
      (n : ℕ) → n ≤ 55_536 → (f : DemuxFixture api) × (demux_rounds api n ≡ some f) × IsBuilt n f
  unfolding demux_rounds
  rounds-IsBuilt zero h = (
    record { demux = default; live_sessions = []; probe_addrs = [] },
    refl,
    record {
      consistent = default-IsConsistent;
      all_hit = λ a m. ground (arith, contains_nil SocketAddr-discrete a);
      probe_count = refl;
    },
  )
  rounds-IsBuilt (suc n) h =
      let (f, built, is_built) = rounds-IsBuilt n (omega arith) in
      let s = api.new 1 0 (saturating_add 1 n) (UserId.integer (pos n)) in
      let a : SocketAddr = record { ip = localhost; port = 10_000 + n } in
      (
        after_round f s a,
        rw (built, session_key_fits n h, remote_addr_fits n h) refl,
        round-IsBuilt n f s a is_built,
      )

  rounds_overflow : (n : ℕ) → 55_536 < n → demux_rounds api n ≡ none
  unfolding demux_rounds
  rounds_overflow zero h = absurd (omega arith)
  rounds_overflow (suc n) h = elim (Option-cases (demux_rounds api n)) [
    | inl failed ↦ rw failed refl
    | inr (f, built) ↦ elim (Option-cases (benchmark_session_key api n)) [
      | inl failed ↦ rw (built, failed) refl
      | inr (s, made) ↦ rw (built, made, remote_addr_overflows n (omega arith)) refl
    ]
  ]

  -- For 1 to 55,536 sessions, which the ports from 10,000 up can serve, `new` builds a fixture:
  -- its demultiplexer is consistent, and both cycles count a hit for every session.
  pub new_demux-hits :
      (n : ℕ)
      → 0 < n
      → n ≤ 55_536
      → (f : DemuxFixture api) × (new_demux api n ≡ some f)
        × IsConsistent api.key f.demux
        × (cached_lookup_cycle api f ≡ n)
        × (linear_scan_cycle api f ≡ n)
  unfolding new_demux cached_lookup_cycle
  new_demux-hits n pos_n h =
      let (f, built, b) = rounds-IsBuilt n h in
      let all : count_hits (cached_hit api f) 0 f.probe_addrs ≡ n =
        count_hits_all (cached_hit api f) 0 f.probe_addrs b.all_hit (omega (arith, b.probe_count))
        ∙ omega (arith, b.probe_count) in
      (
        f,
        ground (arith, built),
        b.consistent,
        all,
        sym (cached-eq-linear_scan f b.consistent) ∙ all,
      )

  -- `new` fails exactly for no session and for more sessions than there are ports.
  pub new_demux-eq-none_iff : (n : ℕ) → (new_demux api n ≡ none) ↔ ((n ≡ 0) ⊎ (55_536 < n))
  unfolding new_demux
  new_demux-eq-none_iff n = (fails, succeeds)
    where
      fails : new_demux api n ≡ none → (n ≡ 0) ⊎ (55_536 < n)
      fails e = elim (dec_le n 55_536) [
        | yes h ↦ let (f, built, b) = rounds-IsBuilt n h in ground (arith, built)
        | no h ↦ inr (omega arith)
      ]

      succeeds : (n ≡ 0) ⊎ (55_536 < n) → new_demux api n ≡ none
      succeeds (inl e) = ground arith
      succeeds (inr h) = ground (arith, rounds_overflow n h)
