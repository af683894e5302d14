-- ===== src/Hardening/Planning/Counts.antt =====
-- What the planning cycles of src/performance_hardening.rs count.
use mathlib.Core.List.{append-nil, append_assoc}
use o_sfu_benchmarks.Base.{
  ℕ, zero, suc, ◌+◌, ◌-◌, ◌/◌, ◌&&◌, Bool, List, [], ◌∷◌, ◌++◌, ◌≡◌, refl, sym, ap, ◌∙◌, arith, inl,
  inr, length, length-append, tabulate, replicate, retain, map, min, u64_max, saturating_add,
  if◌then◌else◌, Bool-cases,
}
use o_sfu_benchmarks.Base.Sums.{sum}
use o_sfu_benchmarks.Base.Sort.{count}
use o_sfu_benchmarks.Session.{SessionKeys}
use o_sfu_benchmarks.Hardening.Planning.{
  PacketGate, open_gate, rid_gate, RoutePacket, is_some_of, permits, RouteDestination,
  PlanningFixture, destination_at, new_planning, new_egress, destination_rounds, packet_rounds,
  destination_gate_cycle, plan_rounds, shared_payload_planning_cycle,
}

-- The packets that a gate lets through.
abbrev pub passing : PacketGate → List RoutePacket → ℕ
passing open_gate packets = length packets
passing (rid_gate rid) packets = count (λ p. is_some_of p.rid rid) packets

passing-cons :
    (gate : PacketGate) (p : RoutePacket) (packets : List RoutePacket)
    → passing gate (p ∷ packets) ≡ (if permits gate p then 1 else 0) + passing gate packets
unfolding permits
passing-cons open_gate p packets = omega arith
passing-cons (rid_gate rid) p packets = refl

passing_nil : (gate : PacketGate) → passing gate [] ≡ 0
passing_nil open_gate = refl
passing_nil (rid_gate rid) = refl

count-append :
    {A : Type 0} (p : A → Bool) (xs ys : List A) → count p (xs ++ ys) ≡ count p xs + count p ys
count-append p [] ys = omega arith
count-append p (x ∷ xs) ys = omega (arith, count-append p xs ys)

module _ {Session : Type 0} where
  -- The routes of a destination.
  abbrev pub routes_of : List RoutePacket → RouteDestination Session → ℕ
  routes_of packets d = if d.active then passing d.gate packets else 0

  abbrev planned : RoutePacket → RouteDestination Session → Bool
  planned packet d = d.active && permits d.gate packet

  destination_rounds_lem :
      (n : ℕ) (packet : RoutePacket) (ds : List (RouteDestination Session))
      → destination_rounds (min n u64_max) packet ds ≡ min (n + count (planned packet) ds) u64_max
  unfolding destination_rounds
  destination_rounds_lem n packet [] = omega arith
  destination_rounds_lem n packet (d ∷ ds) = elim (Bool-cases (planned packet d)) [
    | inl h ↦ rw h (
        ap (λ k. destination_rounds k packet ds) step
        ∙ destination_rounds_lem (n + 1) packet ds
        ∙ omega arith)
    | inr h ↦ rw h (destination_rounds_lem n packet ds ∙ omega arith)
  ]
    where
      step : saturating_add (min n u64_max) 1 ≡ min (n + 1) u64_max
      step = omega arith

  packet_rounds_lem :
      (n : ℕ) (packets : List RoutePacket) (ds : List (RouteDestination Session))
      → packet_rounds (min n u64_max) packets ds
        ≡ min (n + sum (map (λ p. count (planned p) ds) packets)) u64_max
  unfolding packet_rounds
  packet_rounds_lem n [] ds = omega arith
  packet_rounds_lem n (p ∷ packets) ds =
      ap (λ k. packet_rounds k packets ds) (destination_rounds_lem n p ds)
      ∙ packet_rounds_lem (n + count (planned p) ds) packets ds
      ∙ omega arith

  routes_of-cons :
      (p : RoutePacket) (packets : List RoutePacket) (d : RouteDestination Session)
      → routes_of (p ∷ packets) d ≡ (if planned p d then 1 else 0) + routes_of packets d
  routes_of-cons p packets d = ground (arith, passing-cons d.gate p packets)

  -- Counting by packets is counting by destinations.
  by_destination :
      (p : RoutePacket) (packets : List RoutePacket) (ds : List (RouteDestination Session))
      → sum (map (routes_of (p ∷ packets)) ds)
        ≡ count (planned p) ds + sum (map (routes_of packets) ds)
  by_destination p packets [] = omega arith
  by_destination p packets (d ∷ ds) =
      omega (arith, by_destination p packets ds, routes_of-cons p packets d)

  no_packets : (ds : List (RouteDestination Session)) → sum (map (routes_of []) ds) ≡ 0
  no_packets [] = refl
  no_packets (d ∷ ds) = ground (arith, no_packets ds, passing_nil d.gate)

  counts-routes :
      (packets : List RoutePacket) (ds : List (RouteDestination Session))
      → sum (map (λ p. count (planned p) ds) packets) ≡ sum (map (routes_of packets) ds)
  counts-routes [] ds = sym (no_packets ds)
  counts-routes (p ∷ packets) ds =
      omega (arith, counts-routes packets ds, by_destination p packets ds)

  -- The planned routes are, for each active destination, all packets if its gate is open, and else the
  -- packets of its rid. The cycle returns their number, or the greatest `usize` if that is less.
  pub destination_gate_cycle_lem :
      (f : PlanningFixture Session)
      → destination_gate_cycle f ≡ min (sum (map (routes_of f.packets) f.destinations)) u64_max
  unfolding destination_gate_cycle
  destination_gate_cycle_lem f =
      packet_rounds_lem 0 f.packets f.destinations
      ∙ omega (arith, counts-routes f.packets f.destinations)

  plan_rounds_lem :
      (scratch : List (Session × ℕ)) (payload : List ℕ) (ds : List (RouteDestination Session))
      → plan_rounds scratch payload ds
        ≡ scratch ++ map (λ d. (d.session_key, length payload)) (retain (λ d. d.active) ds)
  unfolding plan_rounds
  plan_rounds_lem scratch payload [] = sym (append-nil scratch)
  plan_rounds_lem scratch payload (d ∷ ds) = elim (Bool-cases d.active) [
    | inl h ↦ rw h (
        plan_rounds_lem (scratch ++ (d.session_key, length payload) ∷ []) payload ds
        ∙ append_assoc scratch ((d.session_key, length payload) ∷ [])
            (map (λ e. (e.session_key, length payload)) (retain (λ e. e.active) ds)))
    | inr h ↦ rw h (plan_rounds_lem scratch payload ds)
  ]

  length-plan_rounds :
      (scratch : List (Session × ℕ)) (payload : List ℕ) (ds : List (RouteDestination Session))
      → length (plan_rounds scratch payload ds) ≡ length scratch + count (λ d. d.active) ds
  unfolding plan_rounds
  length-plan_rounds scratch payload [] = omega arith
  length-plan_rounds scratch payload (d ∷ ds) =
      let next = if d.active then scratch ++ (d.session_key, length payload) ∷ [] else scratch in
      ground (
        arith,
        length-plan_rounds next payload ds,
        length-append scratch ((d.session_key, length payload) ∷ []),
      )

module _ {Session : Type 0} (api : SessionKeys Session) where
  active_destinations :
      (n : ℕ) → count (λ d. d.active) (tabulate (destination_at api) n) ≡ n - (n + 6) / 7
  unfolding destination_at
  active_destinations zero = refl
  active_destinations (suc n) =
      let last = destination_at api n in
      ground (
        arith,
        active_destinations n,
        count-append (λ d. d.active) (tabulate (destination_at api) n) (last ∷ []),
      )

  -- On a new fixture the egress cycle plans for all destinations but each seventh, from the first on:
  -- it returns their number and writes down their session keys in order, each with the size of the
  -- payload.
  pub new_egress-cycle :
      (n : ℕ)
      → ((shared_payload_planning_cycle (new_egress api n)).1 ≡ n - (n + 6) / 7)
        × ((shared_payload_planning_cycle (new_egress api n)).0.scratch
            ≡ map
                (λ d. (d.session_key, 1200))
                (retain (λ d. d.active) (new_egress api n).destinations))
  unfolding shared_payload_planning_cycle new_egress new_planning
  new_egress-cycle n = (
    length-plan_rounds [] (replicate 1200 0) (tabulate (destination_at api) n)
        ∙ omega (arith, active_destinations n),
    plan_rounds_lem [] (replicate 1200 0) (tabulate (destination_at api) n),
  )
