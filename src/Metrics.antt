-- ===== src/Metrics.antt =====
-- src/packet_metrics.rs: worker threads that count packets and bytes, in six counters that they
-- share, in six of their own, or in plain local numbers.
pub mod System
pub mod Counts
pub mod Progress
pub mod Agreement
pub mod Bounds
use o_sfu_benchmarks.Base.{
  ℕ, zero, suc, ◌+◌, ◌%◌, Option, none, some, List, [], ◌∷◌, ◌++◌, length, tabulate, if◌then◌else◌,
  ltb, saturating_add, saturating_mul, u64_max,
}

unfoldable pub operations_per_worker : ℕ
operations_per_worker = 262_144

pub record MetricsFixture : Type 0 where
  pub worker_count : ℕ
  pub payloads : List ℕ

unfoldable pub payload_bytes : ℕ → ℕ
payload_bytes index = saturating_add 172 (index % 1_229)

unfoldable pub new : ℕ → MetricsFixture
unfolding payload_bytes
new worker_count = record {
  worker_count = worker_count;
  payloads = tabulate payload_bytes operations_per_worker;
}

unfoldable pub operation_count_u64 : MetricsFixture → ℕ
operation_count_u64 f = saturating_mul f.worker_count (length f.payloads)

-- The names of the six atomics of `GlobalCounters` and of `WorkerCounters`.
pub data Counter : Type 0 where
  ingress_packets : Counter
  ingress_payload_bytes : Counter
  egress_packets : Counter
  egress_payload_bytes : Counter
  forwarded_packets : Counter
  forwarded_payload_bytes : Counter

-- The six atomics: the value of each. The padding of `PaddedCounter` holds no value.
abbrev pub Counters : Type 0
Counters = Counter → ℕ

-- `GlobalCounters::total` and `WorkerCounters::total`
unfoldable pub total : Counters → ℕ
total counters =
    saturating_add
      (saturating_add
        (saturating_add
          (saturating_add
            (saturating_add (counters ingress_packets) (counters ingress_payload_bytes))
            (counters egress_packets))
          (counters egress_payload_bytes))
        (counters forwarded_packets))
      (counters forwarded_payload_bytes)

pub record LocalCounters : Type 0 where
  pub ingress_packets : ℕ
  pub ingress_payload_bytes : ℕ
  pub egress_packets : ℕ
  pub egress_payload_bytes : ℕ
  pub forwarded_packets : ℕ
  pub forwarded_payload_bytes : ℕ

abbrev pub default : LocalCounters
default = record {
  ingress_packets = 0;
  ingress_payload_bytes = 0;
  egress_packets = 0;
  egress_payload_bytes = 0;
  forwarded_packets = 0;
  forwarded_payload_bytes = 0;
}

unfoldable pub local_record : LocalCounters → ℕ → LocalCounters
local_record c payload_bytes = record {
  ingress_packets = saturating_add c.ingress_packets 1;
  ingress_payload_bytes = saturating_add c.ingress_payload_bytes payload_bytes;
  egress_packets = saturating_add c.egress_packets 1;
  egress_payload_bytes = saturating_add c.egress_payload_bytes payload_bytes;
  forwarded_packets = saturating_add c.forwarded_packets 1;
  forwarded_payload_bytes = saturating_add c.forwarded_payload_bytes payload_bytes;
}

unfoldable pub local_total : LocalCounters → ℕ
local_total c =
    saturating_add
      (saturating_add
        (saturating_add
          (saturating_add (saturating_add c.ingress_packets c.ingress_payload_bytes)
            c.egress_packets)
          c.egress_payload_bytes)
        c.forwarded_packets)
      c.forwarded_payload_bytes

-- The closure of one thread of `thread_local_aggregate_cycle`.
unfoldable pub local_rounds : ℕ → LocalCounters → List ℕ → LocalCounters
unfolding local_record
local_rounds worker c [] = c
local_rounds worker c (payload_bytes ∷ payloads) =
    local_rounds worker (local_record c (saturating_add payload_bytes worker)) payloads

unfoldable pub local_worker : ℕ → List ℕ → ℕ
unfolding local_rounds local_total
local_worker worker payloads = local_total (local_rounds worker default payloads)

-- `iter().sum()` of `u64`: `none` is an overflow, which panics where overflow is checked.
unfoldable pub sum_totals : ℕ → List ℕ → Option ℕ
sum_totals acc [] = some acc
sum_totals acc (value ∷ values) =
    let rest = sum_totals (acc + value) values in if ltb u64_max (acc + value) then none else rest

-- The threads have no state in common, so that each is run by itself.
unfoldable pub thread_local_aggregate_cycle : MetricsFixture → Option ℕ
unfolding sum_totals
thread_local_aggregate_cycle f =
    sum_totals 0 (tabulate (λ worker. local_worker worker f.payloads) f.worker_count)
