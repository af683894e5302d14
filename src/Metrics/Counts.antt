-- ===== src/Metrics/Counts.antt =====
-- What the counters of src/packet_metrics.rs hold when all threads are done.
use o_sfu_benchmarks.Base.{
  ℕ, zero, suc, ◌+◌, ◌%◌, ◌^◌, ◌<◌, ◌==◌, ◌&&◌, List, [], ◌∷◌, ◌++◌, All, ◌≡◌, refl, arith, length,
  tabulate, if◌then◌else◌, eqb, saturating_add, Bool-cases, inl, inr,
}
use o_sfu_benchmarks.Base.Sums.{sum_upto}
use o_sfu_benchmarks.Metrics.{
  MetricsFixture, Counter, ingress_packets, ingress_payload_bytes, egress_packets,
  egress_payload_bytes, forwarded_packets, forwarded_payload_bytes,
}
use o_sfu_benchmarks.Metrics.System.{
  Counter-discrete, fetch_add, Op, payload_ops, thread_ops, State, spawned, Pick, here, there, Step,
  Reach, start, later, IsFinished,
}

-- The payload bytes that a worker counts.
abbrev pub bytes_of : ℕ → List ℕ → ℕ
bytes_of worker [] = 0
bytes_of worker (payload ∷ payloads) = saturating_add payload worker + bytes_of worker payloads

-- A number of packets or of bytes, by what the counter counts.
abbrev pub per_counter : ℕ → ℕ → Counter → ℕ
per_counter packets bytes ingress_packets = packets
per_counter packets bytes ingress_payload_bytes = bytes
per_counter packets bytes egress_packets = packets
per_counter packets bytes egress_payload_bytes = bytes
per_counter packets bytes forwarded_packets = packets
per_counter packets bytes forwarded_payload_bytes = bytes

-- What a worker adds to each counter.
abbrev pub load_of : ℕ → List ℕ → Counter → ℕ
load_of worker payloads = per_counter (length payloads) (bytes_of worker payloads)

-- What an operation, a thread and all threads have yet to add to a counter.
unfoldable amount_at : ℕ → Counter → Op → ℕ
unfolding Counter-discrete
amount_at s c Op.arrive = 0
amount_at s c Op.pass = 0
amount_at s c (Op.add slot counter amount) =
    if s == slot && eqb Counter-discrete c counter then amount else 0

unfoldable ops_amount : ℕ → Counter → List Op → ℕ
unfolding amount_at
ops_amount s c [] = 0
ops_amount s c (op ∷ ops) = amount_at s c op + ops_amount s c ops

unfoldable pending : ℕ → Counter → List (List Op) → ℕ
pending s c [] = 0
pending s c (ops ∷ ts) = ops_amount s c ops + pending s c ts

Pick-pending :
    (s : ℕ) (c : Counter) {op : Op} {ts ts' : List (List Op)}
    → Pick ts op ts'
    → pending s c ts ≡ amount_at s c op + pending s c ts'
unfolding pending ops_amount
Pick-pending s c here = omega arith
Pick-pending s c (there p) = omega (arith, Pick-pending s c p)

-- No addition is lost: what a counter holds and what is yet to be added stay the same modulo 2 ^ 64.
record Conserves (before s : State) : Type 0 where
  kept :
      (slot : ℕ) (c : Counter)
      → (s.memory slot c + pending slot c s.threads) % 2 ^ 64
        ≡ pending slot c before.threads % 2 ^ 64
  bounded : (slot : ℕ) (c : Counter) → s.memory slot c < 2 ^ 64

Step-Conserves : {workers : ℕ} {b s t : State} → Step workers s t → Conserves b s → Conserves b t
unfolding amount_at fetch_add
Step-Conserves (Step.arrive p) v = record {
  kept = λ slot c. omega (arith, v.kept slot c, Pick-pending slot c p);
  bounded = v.bounded;
}
Step-Conserves (Step.pass p h) v = record {
  kept = λ slot c. omega (arith, v.kept slot c, Pick-pending slot c p);
  bounded = v.bounded;
}
Step-Conserves (Step.add {slot} {counter} {amount} p) v = record {
  kept = λ s c. elim (Bool-cases (s == slot && eqb Counter-discrete c counter)) [
    | inl hit ↦ rw hit (
        let taken = rw (amount_at, hit) at (Pick-pending s c p) in omega (arith, v.kept s c, taken))
    | inr miss ↦ rw miss (
        let taken = rw (amount_at, miss) at (Pick-pending s c p) in
        omega (arith, v.kept s c, taken))
  ];
  bounded = λ s c. elim (Bool-cases (s == slot && eqb Counter-discrete c counter)) [
    | inl hit ↦ rw hit (omega arith)
    | inr miss ↦ rw miss (v.bounded s c)
  ];
}

Reach-Conserves :
    {slot_of : ℕ → ℕ} {f : MetricsFixture} {n : ℕ} {s : State}
    → Reach slot_of f n s
    → Conserves (spawned slot_of f) s
unfolding spawned
Reach-Conserves start = record { kept = λ slot c. omega arith; bounded = λ slot c. omega arith }
Reach-Conserves (later r st) = Step-Conserves st (Reach-Conserves r)

-- What the threads have to add in all.
ops_amount-payload_ops :
    (s : ℕ) (c : Counter) (slot worker : ℕ) (payloads : List ℕ)
    → ops_amount s c (payload_ops slot worker payloads)
      ≡ (if s == slot then load_of worker payloads c else 0)
unfolding ops_amount payload_ops
ops_amount-payload_ops s ingress_packets slot worker [] = ground arith
ops_amount-payload_ops s ingress_packets slot worker (p ∷ ps) =
    ground (arith, ops_amount-payload_ops s ingress_packets slot worker ps)
ops_amount-payload_ops s c slot worker [] = ground arith
ops_amount-payload_ops s c slot worker (p ∷ ps) =
    ground (arith, ops_amount-payload_ops s c slot worker ps)

pending-append :
    (s : ℕ) (c : Counter) (ts us : List (List Op))
    → pending s c (ts ++ us) ≡ pending s c ts + pending s c us
unfolding pending
pending-append s c [] us = omega arith
pending-append s c (t ∷ ts) us = omega (arith, pending-append s c ts us)

pending-threads :
    (slot_of : ℕ → ℕ) (payloads : List ℕ) (s : ℕ) (c : Counter) (n : ℕ)
    → pending s c (tabulate (λ worker. thread_ops (slot_of worker) worker payloads) n)
      ≡ sum_upto (λ w. if s == slot_of w then load_of w payloads c else 0) n
unfolding pending thread_ops ops_amount amount_at
pending-threads slot_of payloads s c zero = refl
pending-threads slot_of payloads s c (suc n) = omega (
  arith,
  pending-threads slot_of payloads s c n,
  ops_amount-payload_ops s c (slot_of n) n payloads,
  pending-append s c (tabulate (λ worker. thread_ops (slot_of worker) worker payloads) n)
      (thread_ops (slot_of n) n payloads ∷ []),
)

pending_finished :
    (s : ℕ) (c : Counter) (ts : List (List Op)) → All (λ ops. ops ≡ []) ts → pending s c ts ≡ 0
unfolding pending ops_amount
pending_finished s c [] h = refl
pending_finished s c (t ∷ ts) h = rw h.0 (omega (arith, pending_finished s c ts h.1))

-- In whatever order the threads' atomic additions are interleaved, when all threads are done each
-- counter holds what the workers that use its slot add to it, modulo 2 ^ 64: a packet for each
-- payload, or the bytes of each payload with the worker's number added.
pub Reach-counts :
    {slot_of : ℕ → ℕ} {f : MetricsFixture} {n : ℕ} {s : State} (slot : ℕ) (c : Counter)
    → Reach slot_of f n s
    → IsFinished s
    → s.memory slot c
      ≡ sum_upto (λ w. if slot == slot_of w then load_of w f.payloads c else 0) f.worker_count
        % 2 ^ 64
unfolding spawned
Reach-counts {slot_of} {f} {s} slot c r done =
    let v = Reach-Conserves r in
    omega (
      arith,
      v.kept slot c,
      v.bounded slot c,
      pending_finished slot c s.threads done,
      pending-threads slot_of f.payloads slot c f.worker_count,
    )
