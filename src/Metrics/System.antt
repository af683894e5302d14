-- ===== src/Metrics/System.antt =====
-- The threads of `shared_global_atomic_cycle` and `per_worker_atomic_cycle` in
-- src/packet_metrics.rs, one atomic access at a time, interleaved in any order. A slot is a set of
-- six atomics: all threads use slot 0, or each thread its own.
use o_sfu_benchmarks.Base.{
  ℕ, suc, ◌≤◌, ◌==◌, ◌&&◌, Option, List, [], ◌∷◌, All, ◌≡◌, tabulate, if◌then◌else◌, eqb,
  saturating_add, wrapping_add,
}
use o_sfu_benchmarks.Metrics.{
  MetricsFixture, Counter, Counters, ingress_packets, ingress_payload_bytes, egress_packets,
  egress_payload_bytes, forwarded_packets, forwarded_payload_bytes, total, sum_totals,
}

unfoldable pub Counter-discrete : Discrete Counter
Counter-discrete = hlevel

abbrev pub Memory : Type 0
Memory = ℕ → Counters

unfoldable pub fetch_add : ℕ → Counter → ℕ → Memory → Memory
unfolding Counter-discrete
fetch_add slot counter amount memory s c =
    if s == slot && eqb Counter-discrete c counter
    then wrapping_add (memory s c) amount
    else memory s c

-- What a thread does at once. `Barrier::wait` is two steps: to be counted, and to go on when all
-- the workers are.
pub data Op : Type 0 where
  arrive : Op
  pass : Op
  add : (slot : ℕ) → Counter → ℕ → Op

-- `record_global` and `record_worker`, in front of what the thread does next
unfoldable pub record_ops : ℕ → ℕ → List Op → List Op
record_ops slot payload_bytes next =
    add slot ingress_packets 1
    ∷ add slot ingress_payload_bytes payload_bytes
    ∷ add slot egress_packets 1
    ∷ add slot egress_payload_bytes payload_bytes
    ∷ add slot forwarded_packets 1
    ∷ add slot forwarded_payload_bytes payload_bytes
    ∷ next

-- The loop over the payloads.
unfoldable pub payload_ops : ℕ → ℕ → List ℕ → List Op
unfolding record_ops
payload_ops slot worker [] = []
payload_ops slot worker (payload_bytes ∷ payloads) =
    record_ops slot (saturating_add payload_bytes worker) (payload_ops slot worker payloads)

unfoldable pub thread_ops : ℕ → ℕ → List ℕ → List Op
thread_ops slot worker payloads = arrive ∷ pass ∷ payload_ops slot worker payloads

pub record State : Type 0 where
  pub arrived : ℕ
  pub memory : Memory
  pub threads : List (List Op)

-- The state in which all threads are spawned. `slot_of` gives the slot of each worker.
unfoldable pub spawned : (ℕ → ℕ) → MetricsFixture → State
unfolding thread_ops
spawned slot_of f = record {
  arrived = 0;
  memory = λ s c. 0;
  threads = tabulate (λ worker. thread_ops (slot_of worker) worker f.payloads) f.worker_count;
}

-- One thread does its next operation.
pub data Pick : List (List Op) → Op → List (List Op) → Type 0 where
  here : {op : Op} {ops : List Op} {ts : List (List Op)} → Pick ((op ∷ ops) ∷ ts) op (ops ∷ ts)
  there :
      {op : Op} {t : List Op} {ts ts' : List (List Op)}
      → Pick ts op ts'
      → Pick (t ∷ ts) op (t ∷ ts')

pub data Step (workers : ℕ) (s : State) : State → Type 0 where
  arrive :
      {ts : List (List Op)}
      → Pick s.threads Op.arrive ts
      → Step workers s (record s { arrived = suc s.arrived; threads = ts })
  pass :
      {ts : List (List Op)}
      → Pick s.threads Op.pass ts
      → workers ≤ s.arrived
      → Step workers s (record s { threads = ts })
  add :
      {slot : ℕ} {counter : Counter} {amount : ℕ} {ts : List (List Op)}
      → Pick s.threads (Op.add slot counter amount) ts
      → Step workers s (record s { memory = fetch_add slot counter amount s.memory; threads = ts })

-- The states that the threads can be in after a number of steps.
pub data Reach (slot_of : ℕ → ℕ) (f : MetricsFixture) : ℕ → State → Type 0 where
  start : Reach slot_of f 0 (spawned slot_of f)
  later :
      {n : ℕ} {s t : State}
      → Reach slot_of f n s
      → Step f.worker_count s t
      → Reach slot_of f (suc n) t

-- `thread::scope` returns when every thread has.
abbrev pub IsFinished : State → Type 0
IsFinished s = All (λ ops. ops ≡ []) s.threads

-- The slot of the shared counters, and of the counters of each worker.
abbrev pub shared_slot : ℕ → ℕ
shared_slot worker = 0

abbrev pub own_slot : ℕ → ℕ
own_slot worker = worker

-- What the two cycles return in the state in which the scope ends.
unfoldable pub shared_global_atomic_cycle : State → ℕ
shared_global_atomic_cycle s = total (s.memory 0)

unfoldable pub per_worker_atomic_cycle : MetricsFixture → State → Option ℕ
per_worker_atomic_cycle f s =
    sum_totals 0 (tabulate (λ worker. total (s.memory worker)) f.worker_count)
