-- ===== src/ColdPath/Ingress/Laws.antt =====
-- The two ingress cycles of src/packet_loop_cold_path.rs compared, and what they count.
use o_sfu_benchmarks.Base.{
  ℕ, ◌+◌, ◌%◌, ◌^◌, ◌<◌, ◌≡◌, refl, ◌∙◌, Bool, true, false, not, some, List, [], ◌∷◌, length,
  get_elem?_in_range, arith, if◌then◌else◌, wrapping_add, Option-cases, inl, inr,
}
use Prim.Native.Nat.{bit_xor}
use o_sfu_benchmarks.Session.{SessionKeys}
use o_sfu_benchmarks.ColdPath.Checksum.{session_checksum}
use o_sfu_benchmarks.ColdPath.Ingress.{
  IngressEventKind, cached_route, malformed, recent_miss, source_rate_limited, recovery_miss,
  recovery_hit, IngressEvent, IngressAccounting, IngressFixture, default, account_drop,
  account_malformed_datagram, account_recent_miss_drop, account_source_rate_limited_drop,
  account_recovery_miss_drop, session_at, account_cached_route, account_recovery_hit, inline_arm,
  cold_arm, account_events, inline_rare_branch_cycle, cold_rare_branch_cycle,
}

abbrev pub is_routed : IngressEventKind → Bool
is_routed cached_route = true
is_routed recovery_hit = true
is_routed _ = false

abbrev pub is_recovered : IngressEventKind → Bool
is_recovered recovery_hit = true
is_recovered _ = false

-- How many events have a kind of the given sort.
abbrev pub count_kinds : (IngressEventKind → Bool) → List IngressEvent → ℕ
count_kinds sort [] = 0
count_kinds sort (event ∷ events) = (if sort event.kind then 1 else 0) + count_kinds sort events

module _ {Session : Type 0} (api : SessionKeys Session) where
  inline_arm-eq-cold_arm :
      (kind : IngressEventKind) (accounting : IngressAccounting) (event : IngressEvent)
      (sessions : List Session)
      → inline_arm api kind accounting event sessions ≡ cold_arm api kind accounting event sessions
  unfolding inline_arm cold_arm account_malformed_datagram account_recent_miss_drop
      account_source_rate_limited_drop account_recovery_miss_drop account_drop account_recovery_hit
  inline_arm-eq-cold_arm cached_route accounting event sessions = refl
  inline_arm-eq-cold_arm malformed accounting event sessions = refl
  inline_arm-eq-cold_arm recent_miss accounting event sessions = refl
  inline_arm-eq-cold_arm source_rate_limited accounting event sessions = refl
  inline_arm-eq-cold_arm recovery_miss accounting event sessions = refl
  inline_arm-eq-cold_arm recovery_hit accounting event sessions = refl

  account_events-inline-cold :
      (events : List IngressEvent) (sessions : List Session) (accounting : IngressAccounting)
      → account_events api (inline_arm api) events sessions accounting
        ≡ account_events api (cold_arm api) events sessions accounting
  unfolding account_events
  account_events-inline-cold [] sessions accounting = refl
  account_events-inline-cold (event ∷ events) sessions accounting =
      rw (inline_arm-eq-cold_arm event.kind accounting event sessions)
        (elim (Option-cases (cold_arm api event.kind accounting event sessions)) [
          | inl panics ↦ rw panics refl
          | inr (after, e) ↦ rw e (account_events-inline-cold events sessions after)
        ])

  -- The cycle with the rare branches inline and the cycle that calls cold functions return the
  -- same on every fixture, and panic on the same.
  pub inline-eq-cold :
      (f : IngressFixture Session) → inline_rare_branch_cycle api f ≡ cold_rare_branch_cycle api f
  unfolding inline_rare_branch_cycle cold_rare_branch_cycle
  inline-eq-cold f = rw (account_events-inline-cold f.events f.sessions default) refl

  -- The counters after `r` routed, `d` dropped and `v` recovered packets.
  pub record Tallies (r d v : ℕ) (accounting : IngressAccounting) : Type 0 where
    pub routed : accounting.routed ≡ r % 2 ^ 64
    pub dropped : accounting.dropped ≡ d % 2 ^ 64
    pub recovered : accounting.recovered ≡ v % 2 ^ 64

  session_at_total :
      (sessions : List Session) (index : ℕ)
      → 0 < length sessions
      → (s : Session) × (session_at api sessions index ≡ some s)
  unfolding session_at
  session_at_total sessions index h =
      let (s, e) = get_elem?_in_range sessions (index % length sessions) (omega arith) in
      (s, ground (arith, e))

  abbrev routed_by : IngressAccounting → IngressEvent → Session → IngressAccounting
  routed_by accounting event s = record accounting {
    routed = wrapping_add accounting.routed 1;
    diagnostics =
        wrapping_add accounting.diagnostics
          (bit_xor (bit_xor (session_checksum api s) event.packet_fingerprint) event.payload_len);
  }

  -- Routing a packet counts it as routed, and nothing else.
  cached_route-Tallies :
      (r d v : ℕ) (accounting : IngressAccounting) (event : IngressEvent) (sessions : List Session)
      → 0 < length sessions
      → Tallies r d v accounting
      → (after : IngressAccounting) × (account_cached_route api accounting event sessions
          ≡ some after)
        × Tallies (r + 1) (d + 0) (v + 0) after
  unfolding account_cached_route
  cached_route-Tallies r d v accounting event sessions h t =
      let (s, e) = session_at_total sessions event.session_index h in
      (routed_by accounting event s, rw e refl, omega arith)

  drop-Tallies :
      (rotation r d v : ℕ) (accounting : IngressAccounting) (event : IngressEvent)
      → Tallies r d v accounting
      → Tallies (r + 0) (d + 1) (v + 0) (account_drop rotation accounting event)
  unfolding account_drop
  drop-Tallies rotation r d v accounting event t = omega arith

  -- One event of each kind, in either cycle.
  arm-Tallies :
      (kind : IngressEventKind) (r d v : ℕ) (accounting : IngressAccounting) (event : IngressEvent)
      (sessions : List Session)
      → 0 < length sessions
      → Tallies r d v accounting
      → (after : IngressAccounting) × (cold_arm api kind accounting event sessions ≡ some after)
        × Tallies
            (r + (if is_routed kind then 1 else 0))
            (d + (if is_routed kind then 0 else 1))
            (v + (if is_recovered kind then 1 else 0))
            after
  unfolding cold_arm account_malformed_datagram account_recent_miss_drop
      account_source_rate_limited_drop account_recovery_miss_drop account_recovery_hit
  arm-Tallies cached_route r d v accounting event sessions h t =
      cached_route-Tallies r d v accounting event sessions h t
  arm-Tallies malformed r d v accounting event sessions h t =
      (_, refl, drop-Tallies 7 r d v accounting event t)
  arm-Tallies recent_miss r d v accounting event sessions h t =
      (_, refl, drop-Tallies 13 r d v accounting event t)
  arm-Tallies source_rate_limited r d v accounting event sessions h t =
      (_, refl, drop-Tallies 19 r d v accounting event t)
  arm-Tallies recovery_miss r d v accounting event sessions h t =
      (_, refl, drop-Tallies 23 r d v accounting event t)
  arm-Tallies recovery_hit r d v accounting event sessions h t =
      let recovered = record accounting { recovered = wrapping_add accounting.recovered 1 } in
      let (after, e, t') =
        cached_route-Tallies r d (v + 1) recovered event sessions h (omega arith) in
      (after, e, omega arith)

  events-Tallies :
      (events : List IngressEvent) (r d v : ℕ) (accounting : IngressAccounting)
      (sessions : List Session)
      → 0 < length sessions
      → Tallies r d v accounting
      → (after : IngressAccounting) × (account_events api (cold_arm api) events sessions accounting
          ≡ some after)
        × Tallies
            (r + count_kinds is_routed events)
            (d + count_kinds (λ kind. not (is_routed kind)) events)
            (v + count_kinds is_recovered events)
            after
  unfolding account_events
  events-Tallies [] r d v accounting sessions h t = (accounting, refl, omega arith)
  events-Tallies (event ∷ events) r d v accounting sessions h t =
      let (after, e, t') = arm-Tallies event.kind r d v accounting event sessions h t in
      let (final, e', t'') = events-Tallies events _ _ _ after sessions h t' in
      (final, rw e e', ground arith)

  -- With a session to route to, neither cycle panics, and the accounting counts each event once:
  -- as routed (a cached route or a recovery hit) or as dropped; the recovery hits also as
  -- recovered. The counters wrap at 2 ^ 64.
  pub ingress-Tallies :
      (events : List IngressEvent) (sessions : List Session)
      → 0 < length sessions
      → (after : IngressAccounting) × (account_events api (inline_arm api) events sessions default
          ≡ some after)
        × (account_events api (cold_arm api) events sessions default ≡ some after)
        × (after.routed ≡ count_kinds is_routed events % 2 ^ 64)
        × (after.dropped ≡ count_kinds (λ kind. not (is_routed kind)) events % 2 ^ 64)
        × (after.recovered ≡ count_kinds is_recovered events % 2 ^ 64)
  ingress-Tallies events sessions h =
      let (after, e, t) = events-Tallies events 0 0 0 default sessions h (omega arith) in
      (
        after,
        account_events-inline-cold events sessions default ∙ e,
        e,
        omega (arith, t.routed),
        omega (arith, t.dropped),
        omega (arith, t.recovered),
      )
