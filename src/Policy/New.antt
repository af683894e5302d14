-- ===== src/Policy/New.antt =====
-- `SourcePolicyRefreshBenchmarkFixture::new` of src/source_policy_refresh.rs builds a consistent fixture.
use o_sfu_benchmarks.Base.{
  ℕ, zero, suc, ◌+◌, ◌≤◌, ◌<◌, ◌==◌, List, [], ◌∷◌, refl, arith, inl, inr, length, All, All-append,
  Bool-cases,
}
use o_sfu_benchmarks.Policy.Defs.{Source, routes_of_consumer, new_routes, new_policy}
use o_sfu_benchmarks.Policy.Chosen.{IsConsistent}

routes_of_consumer_range :
    (n consumer i : ℕ) (sources : List Source)
    → i + length sources ≤ n
    → All (λ r. r.source < n) (routes_of_consumer consumer i sources)
unfolding routes_of_consumer
routes_of_consumer_range n consumer i [] fits = tt
routes_of_consumer_range n consumer i (s ∷ sources) fits =
    let rest = routes_of_consumer_range n consumer (suc i) sources (omega arith) in
    elim (Bool-cases (s.owner == consumer)) [
      | inl own ↦ rw own rest
      | inr other ↦ rw other (omega arith, rest)
    ]

new_routes_range :
    (users : ℕ) (sources : List Source)
    → All (λ r. r.source < length sources) (new_routes users sources)
unfolding new_routes
new_routes_range zero sources = tt
new_routes_range (suc consumer) sources =
    All-append (λ r. r.source < length sources) (new_routes consumer sources)
      (routes_of_consumer consumer 0 sources) (new_routes_range consumer sources)
      (routes_of_consumer_range (length sources) consumer 0 sources (omega arith))

pub new_policy-IsConsistent :
    (user_count sources_per_user : ℕ) → IsConsistent (new_policy user_count sources_per_user)
unfolding new_policy
new_policy-IsConsistent user_count sources_per_user = record {
  in_range = new_routes_range user_count (new_policy user_count sources_per_user).sources;
  cached = refl;
}
