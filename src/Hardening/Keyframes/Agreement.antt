-- ===== src/Hardening/Keyframes/Agreement.antt =====
-- The two ways to coalesce keyframe requests in src/performance_hardening.rs against each other.
use o_sfu_benchmarks.Base.{
  ℕ, suc, ◌+◌, ◌%◌, ◌≤◌, ◌-◌, ◌==◌, ◌||◌, false, none, some, List, [], ◌∷◌, map, ◌≡◌, refl, ap, ◌∙◌,
  arith, inl, inr, length, length-tabulate, length-map, map-tabulate, tabulate, min, u64_max,
  saturating_add, Bool-cases,
}
use o_sfu_benchmarks.Base.Map.{Map, get, has, insert, get-insert, length-insert, get_nil}
use o_sfu_benchmarks.Base.Sort.{
  sort_by_key, dedup, dedup_from, fresh, fresh_ext, fresh-sort_by_key, length-sort_by_key,
  sort_by_key-IsSorted, dedup-fresh, fresh-tabulate,
}
use o_sfu_benchmarks.Hardening.Keyframes.{
  PendingKeyframeRequest, CoalescedKeyframeRequest, KeyframeFixture, new_keyframes, request_at,
  coalesced_of, coalesce, scan_rounds, scan_end, reusable_vec_coalescing_cycle, number_key,
  coalesce_entry, entry_rounds, fresh_btree_coalescing_cycle, pending_of,
}

-- The scan counts what `dedup` would leave.
scan-dedup :
    (count : ℕ) (c : CoalescedKeyframeRequest) (rs : List CoalescedKeyframeRequest)
    → count + suc (length rs) ≤ u64_max
    → scan_end (scan_rounds (count, some c) rs)
      ≡ count + length (dedup_from c.source_media_id (map (λ r. r.source_media_id) rs))
unfolding scan_rounds dedup_from
scan-dedup count c [] fits = omega arith
scan-dedup count c (r ∷ rs) fits = elim (Bool-cases (c.source_media_id == r.source_media_id)) [
  | inl same ↦ rw same (scan-dedup count (coalesce c (pending_of r)) rs (omega arith))
  | inr other ↦ rw other (scan-dedup (saturating_add count 1) r rs (omega arith) ∙ omega arith)
]

scan_start :
    (rs : List CoalescedKeyframeRequest)
    → length rs ≤ u64_max
    → scan_end (scan_rounds (0, none) rs) ≡ length (dedup (map (λ r. r.source_media_id) rs))
unfolding scan_rounds dedup
scan_start [] fits = refl
scan_start (r ∷ rs) fits = scan-dedup 0 r rs (omega arith) ∙ omega arith

sources-coalesced :
    (rs : List PendingKeyframeRequest)
    → map (λ r. r.source_media_id) (map coalesced_of rs) ≡ map (λ r. r.source_media_id) rs
sources-coalesced [] = refl
sources-coalesced (r ∷ rs) = ap (λ ks. r.source_media_id ∷ ks) (sources-coalesced rs)

has-insert :
    (k j : ℕ) (v : CoalescedKeyframeRequest) (m : Map ℕ CoalescedKeyframeRequest)
    → (has number_key k m || k == j) ≡ has number_key k (insert number_key j v m)
has-insert k j v m = elim (Bool-cases (k == j)) [
  | inl h ↦ ground (arith, get-insert number_key j k v m, h)
  | inr h ↦ ground (arith, get-insert number_key j k v m, h)
]

-- Each new source makes the map longer.
length-entry_rounds :
    (m : Map ℕ CoalescedKeyframeRequest) (rs : List PendingKeyframeRequest)
    → length (entry_rounds m rs)
      ≡ length m + fresh (λ k. has number_key k m) (map (λ r. r.source_media_id) rs)
unfolding entry_rounds coalesce_entry
length-entry_rounds m [] = omega arith
length-entry_rounds m (r ∷ rs) =
    let key = r.source_media_id in
    let v : CoalescedKeyframeRequest = elim (get number_key key m) [
      | none ↦ coalesced_of r
      | some c ↦ coalesce c r
    ] in
    let n = insert number_key key v m in
    let tail =
      fresh_ext (λ k. has number_key k m || k == key) (λ k. has number_key k n)
        (map (λ r. r.source_media_id) rs) (λ k. has-insert k key v m) in
    length-entry_rounds n rs ∙ omega (arith, length-insert number_key key v m, tail)

btree_start :
    (rs : List PendingKeyframeRequest)
    → length (entry_rounds [] rs) ≡ fresh (λ k. false) (map (λ r. r.source_media_id) rs)
btree_start rs =
    let same =
      fresh_ext (λ k. has {V = CoalescedKeyframeRequest} number_key k []) (λ k. false)
        (map (λ r. r.source_media_id) rs)
        (λ k. ground (arith, get_nil {V = CoalescedKeyframeRequest} number_key k)) in
    omega (arith, length-entry_rounds [] rs, same)

-- While the number of requests is a `usize`, the cycle that sorts and the cycle that fills a map
-- return the same number: that of the different sources among the requests. The sorting one leaves
-- the requests as they were.
pub coalescing_cycles-agree :
    (f : KeyframeFixture)
    → length f.requests ≤ u64_max
    → ((reusable_vec_coalescing_cycle f).1
        ≡ fresh (λ k. false) (map (λ r. r.source_media_id) f.requests))
      × (fresh_btree_coalescing_cycle f
          ≡ fresh (λ k. false) (map (λ r. r.source_media_id) f.requests))
      × ((reusable_vec_coalescing_cycle f).0.requests ≡ f.requests)
unfolding reusable_vec_coalescing_cycle fresh_btree_coalescing_cycle
coalescing_cycles-agree f fits =
    let sorted = sort_by_key (λ r. r.source_media_id) (map coalesced_of f.requests) in
    (
      scan_start sorted (
            omega (
              arith,
              length-sort_by_key (λ r. r.source_media_id) (map coalesced_of f.requests),
              length-map coalesced_of f.requests,
            ))
          ∙ dedup-fresh (map (λ r. r.source_media_id) sorted)
              (sort_by_key-IsSorted (λ r. r.source_media_id) (map coalesced_of f.requests))
          ∙ fresh-sort_by_key (λ r. r.source_media_id) (λ k. false) (map coalesced_of f.requests)
          ∙ ap (fresh (λ k. false)) (sources-coalesced f.requests),
      btree_start f.requests,
      refl,
    )

map-request_at :
    (n : ℕ) → map (λ r. r.source_media_id) (tabulate request_at n) ≡ tabulate (λ i. i % 16) n
unfolding request_at
map-request_at n = map-tabulate (λ r. r.source_media_id) request_at n

-- On the requests that `new` builds, which name 16 sources in turn, both cycles return their number,
-- or 16 if there are more.
pub new_keyframes-cycles :
    (n : ℕ)
    → n ≤ u64_max
    → ((reusable_vec_coalescing_cycle (new_keyframes n)).1 ≡ min n 16)
      × (fresh_btree_coalescing_cycle (new_keyframes n) ≡ min n 16)
unfolding new_keyframes
new_keyframes-cycles n fits =
    let (sorting, filling, kept) =
      coalescing_cycles-agree (new_keyframes n) (omega (arith, length-tabulate request_at n)) in
    let number =
      ap (fresh (λ k. false)) (map-request_at n)
      ∙ fresh-tabulate (λ i. i % 16) 16 (λ i j less below e. omega arith)
          (λ j over. (j - 16, omega arith, omega arith)) n in
    (sorting ∙ number, filling ∙ number)
