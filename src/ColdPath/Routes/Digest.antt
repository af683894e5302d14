-- ===== src/ColdPath/Routes/Digest.antt =====
-- What the two route planning cycles of src/packet_loop_cold_path.rs return.
use Prim.Native.Nat.{bit_xor}
use o_sfu_benchmarks.Base.{
  ℕ, ◌+◌, ◌-◌, ◌*◌, ◌%◌, ◌^◌, ◌≡◌, refl, ap, List, [], ◌∷◌, length, arith, if◌then◌else◌,
  rotate_left,
}
use o_sfu_benchmarks.Session.{SessionKeys}
use o_sfu_benchmarks.ColdPath.Checksum.{session_checksum}
use o_sfu_benchmarks.ColdPath.Routes.{
  RoutePacket, RouteDestination, RouteAccounting, RouteFixture, default, finish_route_accounting,
  account_planned_route, account_rejected_route, inline_attempt, cold_attempt, for_destinations,
  for_packets, inline_reject_branch_cycle, cold_reject_branch_cycle,
}
use o_sfu_benchmarks.ColdPath.Routes.Laws.{is_planned, planned_routes, routes-Counts}

-- The two counts and the checksum, as both cycles put them together.
abbrev pub digest : ℕ → ℕ → ℕ → ℕ
digest planned rejected checksum =
    bit_xor (bit_xor (planned % 2 ^ 64) (rotate_left (rejected % 2 ^ 64) 17)) (checksum % 2 ^ 64)

module _ {Session : Type 0} (api : SessionKeys Session) where
  abbrev Share : Type 0
  Share = RoutePacket → RouteDestination Session → ℕ

  -- A route is worth its session, media id and rid.
  abbrev pub whole_share : Share
  whole_share packet destination =
      bit_xor (bit_xor (session_checksum api destination.session_key) packet.source_media_id)
        packet.rid

  -- A rejected route is worth less: to an active destination the rid is missing, to an inactive one
  -- the media id.
  abbrev pub part_share : Share
  part_share packet destination =
      let key = session_checksum api destination.session_key in
      if is_planned api packet destination
      then whole_share packet destination
      else if destination.active
      then bit_xor key packet.source_media_id
      else bit_xor key packet.rid

  abbrev shares_to : Share → RoutePacket → List (RouteDestination Session) → ℕ
  shares_to share packet [] = 0
  shares_to share packet (destination ∷ destinations) =
      share packet destination + shares_to share packet destinations

  -- The shares of all routes.
  abbrev pub shares : Share → List RoutePacket → List (RouteDestination Session) → ℕ
  shares share [] destinations = 0
  shares share (packet ∷ packets) destinations =
      shares_to share packet destinations + shares share packets destinations

  abbrev Attempt : Type 0
  Attempt = RoutePacket → RouteDestination Session → RouteAccounting → RouteAccounting

  -- An attempt adds its share to the checksum.
  abbrev Mixes : Attempt → Share → Type 0
  Mixes attempt share =
      (packet : RoutePacket) (destination : RouteDestination Session) (accounting : RouteAccounting)
      → (attempt packet destination accounting).checksum
        ≡ (accounting.checksum + share packet destination) % 2 ^ 64

  inline_attempt-Mixes : Mixes (inline_attempt api) part_share
  unfolding inline_attempt account_planned_route
  inline_attempt-Mixes packet destination accounting = ground arith

  cold_attempt-Mixes : Mixes (cold_attempt api) whole_share
  unfolding cold_attempt account_planned_route account_rejected_route
  cold_attempt-Mixes packet destination accounting = ground arith

  for_destinations-shares :
      (attempt : Attempt) (share : Share)
      → Mixes attempt share
      → (packet : RoutePacket) (destinations : List (RouteDestination Session))
        (accounting : RouteAccounting) (c : ℕ)
      → accounting.checksum ≡ c % 2 ^ 64
      → (for_destinations api attempt packet destinations accounting).checksum
        ≡ (c + shares_to share packet destinations) % 2 ^ 64
  unfolding for_destinations
  for_destinations-shares attempt share mixes packet [] accounting c h = omega (arith, h)
  for_destinations-shares attempt share mixes packet (destination ∷ destinations) accounting c h =
      omega (
        arith,
        for_destinations-shares attempt share mixes packet destinations
            (attempt packet destination accounting) (c + share packet destination)
            (omega (arith, h, mixes packet destination accounting)),
      )

  for_packets-shares :
      (attempt : Attempt) (share : Share)
      → Mixes attempt share
      → (packets : List RoutePacket) (destinations : List (RouteDestination Session))
        (accounting : RouteAccounting) (c : ℕ)
      → accounting.checksum ≡ c % 2 ^ 64
      → (for_packets api attempt packets destinations accounting).checksum
        ≡ (c + shares share packets destinations) % 2 ^ 64
  unfolding for_packets
  for_packets-shares attempt share mixes [] destinations accounting c h = omega (arith, h)
  for_packets-shares attempt share mixes (packet ∷ packets) destinations accounting c h = omega (
    arith,
    for_packets-shares attempt share mixes packets destinations
        (for_destinations api attempt packet destinations accounting)
        (c + shares_to share packet destinations)
        (for_destinations-shares attempt share mixes packet destinations accounting c h),
  )

  -- Both cycles mix the number of planned routes, that of the rejected ones (every other route from
  -- a packet to a destination), and a sum over all routes. In the cycle with cold functions a route
  -- adds its session, media id and rid, planned or not; in the inline one a rejected route leaves
  -- out the rid, or the media id if the destination is inactive.
  pub reject_cycles_lem :
      (f : RouteFixture Session)
      → let planned = planned_routes api f.packets f.destinations in
        let rejected = length f.packets * length f.destinations - planned in
        (inline_reject_branch_cycle api f
          ≡ digest planned rejected (shares part_share f.packets f.destinations))
        × (cold_reject_branch_cycle api f
            ≡ digest planned rejected (shares whole_share f.packets f.destinations))
  unfolding inline_reject_branch_cycle cold_reject_branch_cycle finish_route_accounting
  reject_cycles_lem f =
      let planned = planned_routes api f.packets f.destinations in
      let rejected = length f.packets * length f.destinations - planned in
      let (inline, cold) = routes-Counts api f.packets f.destinations in
      let inline_sum =
        for_packets-shares (inline_attempt api) part_share inline_attempt-Mixes f.packets
          f.destinations default 0 refl in
      let cold_sum =
        for_packets-shares (cold_attempt api) whole_share cold_attempt-Mixes f.packets
          f.destinations default 0 refl in
      (
        rw (inline.planned, inline.rejected, inline_sum)
            (ap (digest planned rejected) (omega arith)),
        rw (cold.planned, cold.rejected, cold_sum) (ap (digest planned rejected) (omega arith)),
      )
