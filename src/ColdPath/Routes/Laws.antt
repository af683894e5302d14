-- ===== src/ColdPath/Routes/Laws.antt =====
-- The two route planning cycles of src/packet_loop_cold_path.rs: their counts of planned and
-- rejected routes.
use o_sfu_benchmarks.Base.{
  ℕ, ◌+◌, ◌-◌, ◌*◌, ◌%◌, ◌^◌, ◌≤◌, ◌≡◌, Bool, ◌&&◌, List, [], ◌∷◌, length, arith, if◌then◌else◌,
}
use o_sfu_benchmarks.Session.{SessionKeys}
use o_sfu_benchmarks.ColdPath.Routes.{
  permits, RoutePacket, RouteDestination, RouteAccounting, default, account_planned_route,
  account_rejected_route, inline_attempt, cold_attempt, for_destinations, for_packets,
}

module _ {Session : Type 0} (api : SessionKeys Session) where
  -- Whether the route from a packet to a destination is planned.
  abbrev pub is_planned : RoutePacket → RouteDestination Session → Bool
  is_planned packet destination = destination.active && permits destination.gate packet.rid

  abbrev pub planned_to : RoutePacket → List (RouteDestination Session) → ℕ
  planned_to packet [] = 0
  planned_to packet (destination ∷ destinations) =
      (if is_planned packet destination then 1 else 0) + planned_to packet destinations

  abbrev pub planned_routes : List RoutePacket → List (RouteDestination Session) → ℕ
  planned_routes [] destinations = 0
  planned_routes (packet ∷ packets) destinations =
      planned_to packet destinations + planned_routes packets destinations

  -- The counters after `p` planned routes out of `n`.
  pub record Counts (p n : ℕ) (accounting : RouteAccounting) : Type 0 where
    pub planned : accounting.planned ≡ p % 2 ^ 64
    pub within : p ≤ n
    pub rejected : accounting.rejected ≡ (n - p) % 2 ^ 64

  abbrev Attempt : Type 0
  Attempt = RoutePacket → RouteDestination Session → RouteAccounting → RouteAccounting

  -- An attempt counts its route once.
  abbrev CountsOnce : Attempt → Type 0
  CountsOnce attempt =
      (packet : RoutePacket) (destination : RouteDestination Session) (accounting : RouteAccounting)
      (p n : ℕ)
      → Counts p n accounting
      → Counts (p + (if is_planned packet destination then 1 else 0)) (n + 1)
          (attempt packet destination accounting)

  inline_attempt-CountsOnce : CountsOnce (inline_attempt api)
  unfolding inline_attempt account_planned_route
  inline_attempt-CountsOnce packet destination accounting p n c = ground arith

  cold_attempt-CountsOnce : CountsOnce (cold_attempt api)
  unfolding cold_attempt account_planned_route account_rejected_route
  cold_attempt-CountsOnce packet destination accounting p n c = ground arith

  for_destinations-Counts :
      (attempt : Attempt)
      → CountsOnce attempt
      → (packet : RoutePacket) (destinations : List (RouteDestination Session))
        (accounting : RouteAccounting) (p n : ℕ)
      → Counts p n accounting
      → Counts
          (p + planned_to packet destinations)
          (n + length destinations)
          (for_destinations api attempt packet destinations accounting)
  unfolding for_destinations
  for_destinations-Counts attempt once packet [] accounting p n c = omega arith
  for_destinations-Counts attempt once packet (destination ∷ destinations) accounting p n c =
      let rest =
        for_destinations-Counts attempt once packet destinations
          (attempt packet destination accounting) _ _ (once packet destination accounting p n c) in
      record {
        planned = omega (arith, rest.planned);
        within = omega (arith, rest.within);
        rejected = omega (arith, rest.rejected);
      }

  for_packets-Counts :
      (attempt : Attempt)
      → CountsOnce attempt
      → (packets : List RoutePacket) (destinations : List (RouteDestination Session))
        (accounting : RouteAccounting) (p n : ℕ)
      → Counts p n accounting
      → Counts
          (p + planned_routes packets destinations)
          (n + length packets * length destinations)
          (for_packets api attempt packets destinations accounting)
  unfolding for_packets
  for_packets-Counts attempt once [] destinations accounting p n c = omega arith
  for_packets-Counts attempt once (packet ∷ packets) destinations accounting p n c =
      let rest =
        for_packets-Counts attempt once packets destinations
          (for_destinations api attempt packet destinations accounting) _ _
          (for_destinations-Counts attempt once packet destinations accounting p n c) in
      record {
        planned = omega (arith, rest.planned);
        within = omega (arith, rest.within);
        rejected = omega (arith, rest.rejected);
      }

  -- Both cycles count each attempt once: as planned, if the destination is active and its gate
  -- permits the packet, and as rejected otherwise. The counters wrap at 2 ^ 64.
  pub routes-Counts :
      (packets : List RoutePacket) (destinations : List (RouteDestination Session))
      → let attempts = length packets * length destinations in
        Counts
          (planned_routes packets destinations)
          attempts
          (for_packets api (inline_attempt api) packets destinations default)
        × Counts
            (planned_routes packets destinations)
            attempts
            (for_packets api (cold_attempt api) packets destinations default)
  routes-Counts packets destinations =
      let inline =
        for_packets-Counts (inline_attempt api) inline_attempt-CountsOnce packets destinations
          default 0 0 (omega arith) in
      let cold =
        for_packets-Counts (cold_attempt api) cold_attempt-CountsOnce packets destinations default 0
          0 (omega arith) in
      (
        record {
          planned = omega (arith, inline.planned);
          within = omega (arith, inline.within);
          rejected = omega (arith, inline.rejected);
        },
        record {
          planned = omega (arith, cold.planned);
          within = omega (arith, cold.within);
          rejected = omega (arith, cold.rejected);
        },
      )
