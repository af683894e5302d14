-- ===== src/Tests/Metrics.antt =====
-- src/packet_metrics.rs: tests and instances.
use o_sfu_benchmarks.Base.{
  ℕ, ◌+◌, ◌*◌, ◌%◌, ◌^◌, ◌==◌, ◌≡◌, ◌⊎◌, refl, some, [], ◌∷◌, if◌then◌else◌, arith,
}
use o_sfu_benchmarks.Base.Sums.{sum_upto}
use o_sfu_benchmarks.Metrics.{
  MetricsFixture, new, ingress_payload_bytes, thread_local_aggregate_cycle, local_worker, total,
}
use o_sfu_benchmarks.Metrics.System.{
  State, Step, arrive, pass, add, here, Reach, start, later, IsFinished, shared_slot, own_slot,
  fetch_add, payload_ops, spawned, shared_global_atomic_cycle, per_worker_atomic_cycle,
}
use o_sfu_benchmarks.Metrics.Counts.{load_of, Reach-counts}
use o_sfu_benchmarks.Metrics.Progress.{remaining, Reach-progress, Reach-finish}
use o_sfu_benchmarks.Metrics.Agreement.{traffic, cycles-agree}
use o_sfu_benchmarks.Metrics.Bounds.{new-traffic-fits}

abbrev small : MetricsFixture
small = record { worker_count = 1; payloads = 100 ∷ [] }

abbrev SmallRun : Type 0
SmallRun = (s : State) × Reach shared_slot small 8 s × IsFinished s

-- One worker, which comes to the barrier, passes it, and counts one packet of 100 bytes.
abbrev small_run : SmallRun
unfolding spawned payload_ops
small_run = (
  _,
  later
      (later
        (later
          (later
            (later (later (later (later start (arrive here)) (pass here (omega arith))) (add here))
              (add here))
            (add here))
          (add here))
        (add here))
      (add here),
  (refl, tt),
)

small_total : shared_global_atomic_cycle small_run.0 ≡ 303
unfolding shared_global_atomic_cycle fetch_add small_run spawned payload_ops total
small_total = refl

two_workers :
    thread_local_aggregate_cycle (record { worker_count = 2; payloads = 100 ∷ 7 ∷ [] }) ≡ some 660
unfolding thread_local_aggregate_cycle local_worker
two_workers = refl

Reach-counts_example :
    small_run.0.memory 0 ingress_payload_bytes
    ≡ sum_upto (λ w. if 0 == 0 then load_of w (100 ∷ []) ingress_payload_bytes else 0) 1 % 2 ^ 64
Reach-counts_example = Reach-counts 0 ingress_payload_bytes small_run.1 small_run.2

Reach-progress_example :
    (IsFinished (spawned own_slot small) ⊎ ((t : State) × Step 1 (spawned own_slot small) t))
    × (0 + remaining (spawned own_slot small).threads ≡ 1 * (2 + 6 * 1))
Reach-progress_example = Reach-progress {slot_of = own_slot} {f = small} start

abbrev Ended : (ℕ → ℕ) → Type 0
Ended slot_of = (m : ℕ) × (t : State) × Reach slot_of (new 4) m t × IsFinished t

shared_end : Ended shared_slot
shared_end = Reach-finish start

own_end : Ended own_slot
own_end = Reach-finish start

cycles-agree_example :
    (shared_global_atomic_cycle shared_end.1 ≡ traffic (new 4))
    × (per_worker_atomic_cycle (new 4) own_end.1 ≡ some (traffic (new 4)))
    × (thread_local_aggregate_cycle (new 4) ≡ some (traffic (new 4)))
cycles-agree_example =
    cycles-agree (new 4) (new-traffic-fits 4 (omega arith)) shared_end.2 shared_end.3 own_end.2
      own_end.3
