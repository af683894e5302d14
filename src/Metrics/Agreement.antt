-- ===== src/Metrics/Agreement.antt =====
-- The three cycles of src/packet_metrics.rs compared, where no counter overflows.
use o_sfu_benchmarks.Base.{
  ℕ, zero, suc, ◌+◌, ◌*◌, ◌≤◌, ◌<◌, some, List, [], ◌∷◌, ◌≡◌, refl, ap, ◌∙◌, arith, length,
  tabulate, saturating_add, u64_max,
}
use o_sfu_benchmarks.Base.Sums.{
  sum, sum_upto, sum-tabulate, sum_upto-const, sum_upto_congr, sum_upto-single, sum_upto-le,
}
use o_sfu_benchmarks.Metrics.{
  MetricsFixture, Counter, ingress_packets, ingress_payload_bytes, egress_packets,
  egress_payload_bytes, forwarded_packets, forwarded_payload_bytes, Counters, total, LocalCounters,
  default, local_record, local_total, local_rounds, local_worker, sum_totals,
  thread_local_aggregate_cycle,
}
use o_sfu_benchmarks.Metrics.System.{
  State, Reach, IsFinished, shared_slot, own_slot, shared_global_atomic_cycle,
  per_worker_atomic_cycle,
}
use o_sfu_benchmarks.Metrics.Counts.{bytes_of, per_counter, load_of, Reach-counts}

-- Three packet counters, and three counters of bytes.
abbrev pub traffic : MetricsFixture → ℕ
traffic f =
    3 * (f.worker_count * length f.payloads + sum_upto (λ w. bytes_of w f.payloads) f.worker_count)

abbrev traffic_of : List ℕ → ℕ → ℕ
traffic_of payloads worker = 3 * (length payloads + bytes_of worker payloads)

traffic-eq-sum :
    (payloads : List ℕ) (n : ℕ)
    → sum_upto (traffic_of payloads) n
      ≡ 3 * (n * length payloads + sum_upto (λ w. bytes_of w payloads) n)
traffic-eq-sum payloads zero = omega arith
traffic-eq-sum payloads (suc n) = omega (arith, traffic-eq-sum payloads n)

-- Six counters of packets and bytes that do not overflow add up.
total_lem :
    (counters : Counters) (packets bytes : ℕ)
    → ((c : Counter) → counters c ≡ per_counter packets bytes c)
    → 3 * (packets + bytes) ≤ u64_max
    → total counters ≡ 3 * (packets + bytes)
unfolding total
total_lem counters packets bytes h fits = omega (
  arith,
  h ingress_packets,
  h ingress_payload_bytes,
  h egress_packets,
  h egress_payload_bytes,
  h forwarded_packets,
  h forwarded_payload_bytes,
)

sum_load :
    (payloads : List ℕ) (c : Counter) (n : ℕ)
    → sum_upto (λ w. load_of w payloads c) n
      ≡ per_counter (n * length payloads) (sum_upto (λ w. bytes_of w payloads) n) c
sum_load payloads ingress_packets n = sum_upto-const (length payloads) n
sum_load payloads ingress_payload_bytes n = refl
sum_load payloads egress_packets n = sum_upto-const (length payloads) n
sum_load payloads egress_payload_bytes n = refl
sum_load payloads forwarded_packets n = sum_upto-const (length payloads) n
sum_load payloads forwarded_payload_bytes n = refl

per_counter-le :
    (packets bytes : ℕ) (c : Counter) → per_counter packets bytes c ≤ 3 * (packets + bytes)
per_counter-le packets bytes ingress_packets = omega arith
per_counter-le packets bytes c = omega arith

shared_total :
    {f : MetricsFixture} {n : ℕ} {s : State}
    → traffic f ≤ u64_max
    → Reach shared_slot f n s
    → IsFinished s
    → shared_global_atomic_cycle s ≡ traffic f
unfolding shared_global_atomic_cycle
shared_total {f} {s} fits r done =
    let packets = f.worker_count * length f.payloads in
    let bytes = sum_upto (λ w. bytes_of w f.payloads) f.worker_count in
    total_lem (s.memory 0) packets bytes
      (λ c. omega (
        arith,
        Reach-counts 0 c r done,
        sum_load f.payloads c f.worker_count,
        per_counter-le packets bytes c,
      ))
      fits

worker_total :
    {f : MetricsFixture} {n : ℕ} {s : State}
    → traffic f ≤ u64_max
    → Reach own_slot f n s
    → IsFinished s
    → (w : ℕ) → w < f.worker_count
    → total (s.memory w) ≡ traffic_of f.payloads w
worker_total {f} {s} fits r done w below =
    let packets = length f.payloads in
    let bytes = bytes_of w f.payloads in
    let small : 3 * (packets + bytes) ≤ u64_max = omega (
      arith,
      sum_upto-le (traffic_of f.payloads) w f.worker_count below,
      traffic-eq-sum f.payloads f.worker_count,
    ) in
    total_lem (s.memory w) packets bytes
      (λ c. ground (
        arith,
        Reach-counts w c r done,
        sum_upto-single (λ v. load_of v f.payloads c) w f.worker_count,
        per_counter-le packets bytes c,
      ))
      small

-- A thread's own numbers after its rounds, from what they were.
record Counted (before after : LocalCounters) (packets bytes : ℕ) : Type 0 where
  ingress : after.ingress_packets ≡ before.ingress_packets + packets
  ingress_bytes : after.ingress_payload_bytes ≡ before.ingress_payload_bytes + bytes
  egress : after.egress_packets ≡ before.egress_packets + packets
  egress_bytes : after.egress_payload_bytes ≡ before.egress_payload_bytes + bytes
  forwarded : after.forwarded_packets ≡ before.forwarded_packets + packets
  forwarded_bytes : after.forwarded_payload_bytes ≡ before.forwarded_payload_bytes + bytes

-- Each number has room for so many packets or bytes.
record Fits (c : LocalCounters) (packets bytes : ℕ) : Type 0 where
  ingress : c.ingress_packets + packets ≤ u64_max
  ingress_bytes : c.ingress_payload_bytes + bytes ≤ u64_max
  egress : c.egress_packets + packets ≤ u64_max
  egress_bytes : c.egress_payload_bytes + bytes ≤ u64_max
  forwarded : c.forwarded_packets + packets ≤ u64_max
  forwarded_bytes : c.forwarded_payload_bytes + bytes ≤ u64_max

local_rounds-Counted :
    (worker : ℕ) (payloads : List ℕ) (c : LocalCounters)
    → Fits c (length payloads) (bytes_of worker payloads)
    → Counted c (local_rounds worker c payloads) (length payloads) (bytes_of worker payloads)
unfolding local_rounds local_record
local_rounds-Counted worker [] c h = omega arith
local_rounds-Counted worker (p ∷ ps) c h =
    let v =
      local_rounds-Counted worker ps (local_record c (saturating_add p worker))
        (omega (arith, h)) in
    omega (arith, v)

local_worker_lem :
    (worker : ℕ) (payloads : List ℕ)
    → traffic_of payloads worker ≤ u64_max
    → local_worker worker payloads ≡ traffic_of payloads worker
unfolding local_worker local_total
local_worker_lem worker payloads h =
    let v = local_rounds-Counted worker payloads default (omega arith) in omega (arith, v)

sum_totals-fits :
    (xs : List ℕ) (acc : ℕ) → acc + sum xs ≤ u64_max → sum_totals acc xs ≡ some (acc + sum xs)
unfolding sum_totals
sum_totals-fits [] acc h = ap some (omega arith)
sum_totals-fits (x ∷ xs) acc h = ground (arith, sum_totals-fits xs (acc + x) (omega arith))

-- The sum over the workers, where each gives what it has to.
sum_totals-workers :
    (f : MetricsFixture) (g : ℕ → ℕ)
    → traffic f ≤ u64_max
    → ((w : ℕ) → w < f.worker_count → g w ≡ traffic_of f.payloads w)
    → sum_totals 0 (tabulate g f.worker_count) ≡ some (traffic f)
sum_totals-workers f g fits h =
    let all : sum (tabulate g f.worker_count) ≡ traffic f =
      sum-tabulate g f.worker_count
      ∙ sum_upto_congr g (traffic_of f.payloads) f.worker_count h
      ∙ traffic-eq-sum f.payloads f.worker_count in
    sum_totals-fits (tabulate g f.worker_count) 0 (omega (arith, all))
    ∙ ap some (omega (arith, all))

-- Where the traffic of all workers fits a `u64`, the three cycles return it, in whatever order the
-- shared and the own atomics are accessed: three times the packets and bytes of all the workers.
pub cycles-agree :
    (f : MetricsFixture) {m n : ℕ} {s t : State}
    → traffic f ≤ u64_max
    → Reach shared_slot f m s
    → IsFinished s
    → Reach own_slot f n t
    → IsFinished t
    → (shared_global_atomic_cycle s ≡ traffic f)
      × (per_worker_atomic_cycle f t ≡ some (traffic f))
      × (thread_local_aggregate_cycle f ≡ some (traffic f))
unfolding per_worker_atomic_cycle thread_local_aggregate_cycle
cycles-agree f {t} fits shared s_done own t_done = (
  shared_total fits shared s_done,
  sum_totals-workers f (λ w. total (t.memory w)) fits (worker_total fits own t_done),
  sum_totals-workers f (λ w. local_worker w f.payloads) fits
      (λ w below. local_worker_lem w f.payloads (
        omega (
          arith,
          sum_upto-le (traffic_of f.payloads) w f.worker_count below,
          traffic-eq-sum f.payloads f.worker_count,
        ))),
)
