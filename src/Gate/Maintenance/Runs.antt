-- ===== src/Gate/Maintenance/Runs.antt =====
-- Any number of cycles of `ConsumerPacketGateRouteMaintenanceBenchmarkFixture` in
-- src/consumer_packet_gate.rs, from a new fixture.
use o_sfu_benchmarks.Base.{
  ℕ, zero, suc, ◌+◌, ◌≤◌, ◌<◌, Option, some, List, [], ◌∷◌, ◌≡◌, refl, ◌∙◌, arith, length,
  replicate, u64_max, ◌>>=◌,
}
use o_sfu_benchmarks.Base.Map.{Map}
use o_sfu_benchmarks.Session.{SessionKeys, MediaIds}
use o_sfu_benchmarks.Gate.Defs.{RouteDestination}
use o_sfu_benchmarks.Gate.Maintenance.{
  MaintenanceFixture, current_linear_remove_add_cycle, media_id_indexed_swap_remove_add_cycle,
  media_id_indexed_stable_remove_add_cycle,
}
use o_sfu_benchmarks.Gate.Maintenance.Replaced.{IsMaintained, IsReplaced}
use o_sfu_benchmarks.Gate.Maintenance.Cycles.{swap_cycle_lem, stable_cycle_lem, linear_cycle_lem}

-- The fixture after a number of cycles, and what they returned.
abbrev pub cycles : {F : Type 0} → (F → Option (F × ℕ)) → ℕ → F → Option (F × List ℕ)
cycles cycle zero f = some (f, [])
cycles cycle (suc n) f = cycle f >>= (λ r. cycles cycle n r.0 >>= (λ s. some (s.0, r.1 ∷ s.1)))

module _ {Session Media : Type 0} (api : SessionKeys Session) (ids : MediaIds Media) where
  -- What a number of cycles leaves.
  pub record IsRun (n : ℕ) (f g : MaintenanceFixture Session Media) : Type 0 where
    pub maintained : IsMaintained api ids g
    pub size : length g.destinations ≡ length f.destinations
    pub next : g.next_destination_index ≡ f.next_destination_index + n

  IsRun-after :
      (n : ℕ) (f g h : MaintenanceFixture Session Media) {target : RouteDestination Session Media}
      → IsReplaced api ids f target g
      → IsRun n g h
      → IsRun (suc n) f h
  IsRun-after n f g h r w = record {
    maintained = w.maintained;
    size = w.size ∙ r.size;
    next = w.next ∙ omega (arith, r.next);
  }

  swap_run_lem :
      (n : ℕ) (f : MaintenanceFixture Session Media)
      → IsMaintained api ids f
      → 0 < length f.destinations
      → f.next_destination_index + n + 1_000 ≤ u64_max
      → (g : MaintenanceFixture Session Media) × (cycles
            (media_id_indexed_swap_remove_add_cycle api ids)
            n
            f
          ≡ some (g, replicate n (length f.destinations)))
        × IsRun n f g
  swap_run_lem zero f v room fits =
      (f, refl, record { maintained = v; size = refl; next = omega arith })
  swap_run_lem (suc n) f v room fits =
      let c = swap_cycle_lem api ids f v room (omega arith) in
      let (g, runs, w) =
        swap_run_lem n c.after c.maintained (omega (arith, c.replaced.size))
          (omega (arith, c.replaced.next)) in
      (g, rw (c.runs, runs, c.replaced.size) refl, IsRun-after n f c.after g c.replaced w)

  stable_run_lem :
      (n : ℕ) (f : MaintenanceFixture Session Media) (index : Map Media ℕ)
      → IsMaintained api ids f
      → 0 < length f.destinations
      → f.next_destination_index + n + 1_000 ≤ u64_max
      → (g : MaintenanceFixture Session Media) × (cycles
            (media_id_indexed_stable_remove_add_cycle api ids)
            n
            f
          ≡ some (g, replicate n (length f.destinations)))
        × (cycles (current_linear_remove_add_cycle api ids) n (record f { media_id_index = index })
            ≡ some (record g { media_id_index = index }, replicate n (length f.destinations)))
        × IsRun n f g
  stable_run_lem zero f index v room fits =
      (f, refl, refl, record { maintained = v; size = refl; next = omega arith })
  stable_run_lem (suc n) f index v room fits =
      let c = stable_cycle_lem api ids f v room (omega arith) in
      let (g, runs, scans, w) =
        stable_run_lem n c.after index c.maintained (omega (arith, c.replaced.size))
          (omega (arith, c.replaced.next)) in
      (
        g,
        rw (c.runs, runs, c.replaced.size) refl,
        rw (linear_cycle_lem api ids f v room (omega arith) index, scans, c.replaced.size) refl,
        IsRun-after n f c.after g c.replaced w,
      )

  -- Any number of cycles on a maintained fixture with destinations, before the numbers of the media
  -- ids run out: no cycle panics or fails to find its target, each returns the number of the
  -- destinations, and the two cycles that use the index leave a maintained fixture of that size. The
  -- scanning cycle and the stable cycle end with the same destinations, cursor and next number,
  -- whatever index the scanning one carries along.
  pub maintenance_cycles-agree :
      (n : ℕ) (f : MaintenanceFixture Session Media) (index : Map Media ℕ)
      → IsMaintained api ids f
      → 0 < length f.destinations
      → f.next_destination_index + n + 1_000 ≤ u64_max
      → ((g : MaintenanceFixture Session Media) × (cycles
              (media_id_indexed_stable_remove_add_cycle api ids)
              n
              f
            ≡ some (g, replicate n (length f.destinations)))
          × (cycles
                (current_linear_remove_add_cycle api ids)
                n
                (record f { media_id_index = index })
              ≡ some (record g { media_id_index = index }, replicate n (length f.destinations)))
          × IsRun n f g)
        × ((g : MaintenanceFixture Session Media) × (cycles
                (media_id_indexed_swap_remove_add_cycle api ids)
                n
                f
              ≡ some (g, replicate n (length f.destinations)))
            × IsRun n f g)
  maintenance_cycles-agree n f index v room fits =
      (stable_run_lem n f index v room fits, swap_run_lem n f v room fits)
