-- ===== src/Metrics/Progress.antt =====
-- The threads of src/packet_metrics.rs do not block one another for good: what each has yet to do,
-- and who is still to come to the barrier.
use o_sfu_benchmarks.Base.{
  ℕ, zero, suc, ◌+◌, ◌*◌, ◌≤◌, ◌⊎◌, inl, inr, List, [], ◌∷◌, ◌++◌, All, ◌≡◌, refl, arith, length,
  tabulate, All-tabulate,
}
use o_sfu_benchmarks.Metrics.{MetricsFixture, Counter}
use o_sfu_benchmarks.Metrics.System.{
  Op, payload_ops, thread_ops, State, spawned, Pick, here, there, Step, Reach, start, later,
  IsFinished,
}

-- The operations that the threads have yet to do.
abbrev pub remaining : List (List Op) → ℕ
remaining [] = 0
remaining (ops ∷ ts) = length ops + remaining ts

abbrev arrivals_in : List Op → ℕ
arrivals_in [] = 0
arrivals_in (Op.arrive ∷ ops) = suc (arrivals_in ops)
arrivals_in (Op.pass ∷ ops) = arrivals_in ops
arrivals_in (Op.add slot counter amount ∷ ops) = arrivals_in ops

-- The threads that have not come to the barrier.
abbrev arrivals : List (List Op) → ℕ
arrivals [] = 0
arrivals (ops ∷ ts) = arrivals_in ops + arrivals ts

data Adds : List Op → Type 0 where
  nil : Adds []
  more :
      {slot : ℕ} {counter : Counter} {amount : ℕ} {ops : List Op}
      → Adds ops
      → Adds (Op.add slot counter amount ∷ ops)

-- A thread comes to the barrier, passes it, and then only adds.
data Shape : List Op → Type 0 where
  fresh : {ops : List Op} → Adds ops → Shape (Op.arrive ∷ Op.pass ∷ ops)
  ready : {ops : List Op} → Adds ops → Shape (Op.pass ∷ ops)
  adding : {ops : List Op} → Adds ops → Shape ops

Shape-tail : {op : Op} {ops : List Op} → Shape (op ∷ ops) → Shape ops
Shape-tail (fresh a) = ready a
Shape-tail (ready a) = adding a
Shape-tail (adding (more a)) = adding a

Adds-arrivals : {ops : List Op} → Adds ops → arrivals_in ops ≡ 0
Adds-arrivals nil = refl
Adds-arrivals (more a) = Adds-arrivals a

Pick-Shape : {op : Op} {ts ts' : List (List Op)} → Pick ts op ts' → All Shape ts → All Shape ts'
Pick-Shape here (h, hs) = (Shape-tail h, hs)
Pick-Shape (there p) (h, hs) = (h, Pick-Shape p hs)

Pick-remaining :
    {op : Op} {ts ts' : List (List Op)} → Pick ts op ts' → remaining ts ≡ suc (remaining ts')
Pick-remaining here = omega arith
Pick-remaining (there p) = omega (arith, Pick-remaining p)

Pick-arrivals :
    {op : Op} {ts ts' : List (List Op)}
    → Pick ts op ts'
    → arrivals ts ≡ arrivals_in (op ∷ []) + arrivals ts'
Pick-arrivals {op = Op.arrive} here = omega arith
Pick-arrivals {op = Op.pass} here = omega arith
Pick-arrivals {op = Op.add slot counter amount} here = omega arith
Pick-arrivals (there p) = omega (arith, Pick-arrivals p)

arrivals-le-remaining : (ts : List (List Op)) → arrivals ts ≤ remaining ts
arrivals-le-remaining [] = omega arith
arrivals-le-remaining ([] ∷ ts) = omega (arith, arrivals-le-remaining ts)
arrivals-le-remaining ((Op.arrive ∷ ops) ∷ ts) = omega (arith, arrivals-le-remaining (ops ∷ ts))
arrivals-le-remaining ((Op.pass ∷ ops) ∷ ts) = omega (arith, arrivals-le-remaining (ops ∷ ts))
arrivals-le-remaining ((Op.add slot counter amount ∷ ops) ∷ ts) =
    omega (arith, arrivals-le-remaining (ops ∷ ts))

-- What can be done next.
data Next (ts : List (List Op)) : Type 0 where
  idle : All (λ ops. ops ≡ []) ts → Next ts
  arriving : {ts' : List (List Op)} → Pick ts Op.arrive ts' → Next ts
  passing : {ts' : List (List Op)} → Pick ts Op.pass ts' → arrivals ts ≡ 0 → Next ts
  working :
      {slot : ℕ} {counter : Counter} {amount : ℕ} {ts' : List (List Op)}
      → Pick ts (Op.add slot counter amount) ts'
      → Next ts

idle-arrivals : (ts : List (List Op)) → All (λ ops. ops ≡ []) ts → arrivals ts ≡ 0
idle-arrivals [] h = refl
idle-arrivals (t ∷ ts) h = rw h.0 (omega (arith, idle-arrivals ts h.1))

at_barrier :
    {ops : List Op} {ts : List (List Op)} → Adds ops → Next ts → Next ((Op.pass ∷ ops) ∷ ts)
at_barrier {ts} a (idle h) = passing here (omega (arith, Adds-arrivals a, idle-arrivals ts h))
at_barrier a (arriving p) = arriving (there p)
at_barrier a (passing p none_left) = passing here (omega (arith, Adds-arrivals a))
at_barrier a (working p) = working (there p)

behind_idle : {ts : List (List Op)} → Next ts → Next ([] ∷ ts)
behind_idle (idle h) = idle (refl, h)
behind_idle (arriving p) = arriving (there p)
behind_idle (passing p none_left) = passing (there p) (omega arith)
behind_idle (working p) = working (there p)

next : (ts : List (List Op)) → All Shape ts → Next ts
next [] h = idle tt
next (t ∷ ts) (fresh a, hs) = arriving here
next (t ∷ ts) (ready a, hs) = at_barrier a (next ts hs)
next (t ∷ ts) (adding nil, hs) = behind_idle (next ts hs)
next (t ∷ ts) (adding (more a), hs) = working here

-- Each worker is counted at the barrier or has yet to come to it.
record IsLive (workers : ℕ) (s : State) : Type 0 where
  shaped : All Shape s.threads
  counted : s.arrived + arrivals s.threads ≡ workers

Step-IsLive : {workers : ℕ} {s t : State} → Step workers s t → IsLive workers s → IsLive workers t
Step-IsLive (Step.arrive p) v = record {
  shaped = Pick-Shape p v.shaped;
  counted = omega (arith, v.counted, Pick-arrivals p);
}
Step-IsLive (Step.pass p h) v = record {
  shaped = Pick-Shape p v.shaped;
  counted = omega (arith, v.counted, Pick-arrivals p);
}
Step-IsLive (Step.add p) v = record {
  shaped = Pick-Shape p v.shaped;
  counted = omega (arith, v.counted, Pick-arrivals p);
}

IsLive-Step :
    {workers : ℕ} {s : State} → IsLive workers s → IsFinished s ⊎ ((t : State) × Step workers s t)
IsLive-Step {s} v = elim (next s.threads v.shaped) [
  | idle h ↦ inl h
  | arriving p ↦ inr (_, Step.arrive p)
  | passing p none_left ↦ inr (_, Step.pass p (omega (arith, v.counted)))
  | working p ↦ inr (_, Step.add p)
]

payload_ops-Adds : (slot worker : ℕ) (payloads : List ℕ) → Adds (payload_ops slot worker payloads)
unfolding payload_ops
payload_ops-Adds slot worker [] = nil
payload_ops-Adds slot worker (p ∷ ps) =
    more (more (more (more (more (more (payload_ops-Adds slot worker ps))))))

length-payload_ops :
    (slot worker : ℕ) (payloads : List ℕ)
    → length (payload_ops slot worker payloads) ≡ 6 * length payloads
unfolding payload_ops
length-payload_ops slot worker [] = omega arith
length-payload_ops slot worker (p ∷ ps) = omega (arith, length-payload_ops slot worker ps)

remaining-append : (ts us : List (List Op)) → remaining (ts ++ us) ≡ remaining ts + remaining us
remaining-append [] us = omega arith
remaining-append (t ∷ ts) us = omega (arith, remaining-append ts us)

arrivals-append : (ts us : List (List Op)) → arrivals (ts ++ us) ≡ arrivals ts + arrivals us
arrivals-append [] us = omega arith
arrivals-append (t ∷ ts) us = omega (arith, arrivals-append ts us)

module _ (slot_of : ℕ → ℕ) (payloads : List ℕ) where
  abbrev program : ℕ → List Op
  program worker = thread_ops (slot_of worker) worker payloads

  program-Shape : (worker : ℕ) → Shape (program worker)
  unfolding thread_ops
  program-Shape worker = fresh (payload_ops-Adds (slot_of worker) worker payloads)

  arrivals-programs : (n : ℕ) → arrivals (tabulate program n) ≡ n
  unfolding thread_ops
  arrivals-programs zero = refl
  arrivals-programs (suc n) = omega (
    arith,
    arrivals-programs n,
    Adds-arrivals (payload_ops-Adds (slot_of n) n payloads),
    arrivals-append (tabulate program n) (program n ∷ []),
  )

  remaining-programs : (n : ℕ) → remaining (tabulate program n) ≡ n * (2 + 6 * length payloads)
  unfolding thread_ops
  remaining-programs zero = omega arith
  remaining-programs (suc n) = omega (
    arith,
    remaining-programs n,
    length-payload_ops (slot_of n) n payloads,
    remaining-append (tabulate program n) (program n ∷ []),
  )

Reach-IsLive :
    {slot_of : ℕ → ℕ} {f : MetricsFixture} {n : ℕ} {s : State}
    → Reach slot_of f n s
    → IsLive f.worker_count s
unfolding spawned
Reach-IsLive {slot_of} {f} start = record {
  shaped =
      All-tabulate Shape (program slot_of f.payloads) (program-Shape slot_of f.payloads)
        f.worker_count;
  counted = omega (arith, arrivals-programs slot_of f.payloads f.worker_count);
}
Reach-IsLive (later r st) = Step-IsLive st (Reach-IsLive r)

Step-remaining :
    {workers : ℕ} {s t : State} → Step workers s t → remaining s.threads ≡ suc (remaining t.threads)
Step-remaining (Step.arrive p) = Pick-remaining p
Step-remaining (Step.pass p h) = Pick-remaining p
Step-remaining (Step.add p) = Pick-remaining p

Reach-remaining :
    {slot_of : ℕ → ℕ} {f : MetricsFixture} {n : ℕ} {s : State}
    → Reach slot_of f n s
    → n + remaining s.threads ≡ f.worker_count * (2 + 6 * length f.payloads)
unfolding spawned
Reach-remaining {slot_of} {f} start =
    omega (arith, remaining-programs slot_of f.payloads f.worker_count)
Reach-remaining (later r st) = omega (arith, Step-remaining st, Reach-remaining r)

-- The threads do not deadlock at the barrier, and each run ends: in every state that they can reach
-- all are done or one of them can take a step, and the steps taken with the operations left are
-- always the same number, for each worker two at the barrier and six for each payload.
pub Reach-progress :
    {slot_of : ℕ → ℕ} {f : MetricsFixture} {n : ℕ} {s : State}
    → Reach slot_of f n s
    → (IsFinished s ⊎ ((t : State) × Step f.worker_count s t))
      × (n + remaining s.threads ≡ f.worker_count * (2 + 6 * length f.payloads))
Reach-progress r = (IsLive-Step (Reach-IsLive r), Reach-remaining r)

finish :
    {slot_of : ℕ → ℕ} {f : MetricsFixture} (k : ℕ) {n : ℕ} {s : State}
    → Reach slot_of f n s
    → remaining s.threads ≤ k
    → (m : ℕ) × (t : State) × Reach slot_of f m t × IsFinished t
finish zero r h = elim (IsLive-Step (Reach-IsLive r)) [
  | inl done ↦ (_, _, r, done)
  | inr (t, st) ↦ absurd (omega (arith, h, Step-remaining st))
]
finish (suc k) r h = elim (IsLive-Step (Reach-IsLive r)) [
  | inl done ↦ (_, _, r, done)
  | inr (t, st) ↦ finish k (later r st) (omega (arith, h, Step-remaining st))
]

-- Every run can be continued to one that ends.
pub Reach-finish :
    {slot_of : ℕ → ℕ} {f : MetricsFixture} {n : ℕ} {s : State}
    → Reach slot_of f n s
    → (m : ℕ) × (t : State) × Reach slot_of f m t × IsFinished t
Reach-finish {s} r = finish (remaining s.threads) r (omega arith)
