-- ===== src/Hardening/Wake/Marks.antt =====
-- What a wake-up cycle of src/performance_hardening.rs returns.
use o_sfu_benchmarks.Base.{
  ℕ, ◌+◌, ◌-◌, ◌≤◌, ◌<◌, ◌%◌, Bool, true, false, List, [], ◌∷◌, ◌≡◌, refl, sym, ap, ◌∙◌, arith,
  length, length-tabulate, map, min, u64_max, ◌||◌, ◌==◌,
}
use o_sfu_benchmarks.Base.Sort.{
  sort_by_key, dedup, fresh, fresh-sort_by_key, sort_by_key-IsSorted, dedup-fresh, fresh-tabulate,
}
use o_sfu_benchmarks.Hardening.Wake.{
  DirtyStates, WakeFixture, new_wake, mark_rounds, coalesced_worker_buffer_cycle, usize_of,
}

map_self : (xs : List ℕ) → map (λ x. x) xs ≡ xs
map_self [] = refl
map_self (x ∷ xs) = ap (λ ys. x ∷ ys) (map_self xs)

-- The buffer has one entry for each channel.
length-scratch : (ids : List ℕ) → length (dedup (sort_by_key (λ k. k) ids)) ≡ fresh (λ k. false) ids
length-scratch ids =
    let sorted = sort_by_key (λ k. k) ids in
    ap (λ ks. length (dedup ks)) (sym (map_self sorted))
    ∙ dedup-fresh (map (λ k. k) sorted) (sort_by_key-IsSorted (λ k. k) ids)
    ∙ fresh-sort_by_key (λ k. k) (λ k. false) ids
    ∙ ap (fresh (λ k. false)) (map_self ids)

fresh_range : (s : ℕ → Bool) (xs : List ℕ) → fresh s xs ≤ length xs
fresh_range s [] = omega arith
fresh_range s (x ∷ xs) = ground (arith, fresh_range (λ k. s k || k == x) xs)

module _ {Dirty : Type 0} (states : DirtyStates Dirty) where
  marked_stays :
      (d : Dirty) (ids : List ℕ)
      → (states.take_dirty d).1 ≡ true
      → (states.take_dirty (mark_rounds states d ids)).1 ≡ true
  unfolding mark_rounds
  marked_stays d [] h = h
  marked_stays d (id ∷ ids) h = marked_stays (states.mark_dirty d) ids (states.take-mark d)

  take-mark_rounds :
      (d : Dirty) (ids : List ℕ)
      → (states.take_dirty d).1 ≡ false
      → usize_of (states.take_dirty (mark_rounds states d ids)).1 ≡ min (length ids) 1
  unfolding mark_rounds
  take-mark_rounds d [] h = rw h (omega arith)
  take-mark_rounds d (id ∷ ids) h =
      rw (marked_stays (states.mark_dirty d) ids (states.take-mark d)) (omega arith)

  fresh_start : (ids : List ℕ) → min (fresh (λ k. false) ids) 1 ≡ min (length ids) 1
  fresh_start [] = refl
  fresh_start (id ∷ ids) = omega arith

  -- A cycle on a fixture that is not marked returns the number of the different channels, and one more
  -- if there is a channel. It leaves the fixture unmarked and its channels as they were, so that the
  -- next cycle does the same.
  pub wake_cycle_lem :
      (f : WakeFixture Dirty)
      → (states.take_dirty f.dirty).1 ≡ false
      → length f.channel_ids < u64_max
      → ((coalesced_worker_buffer_cycle states f).1
          ≡ fresh (λ k. false) f.channel_ids + min (length f.channel_ids) 1)
        × ((states.take_dirty (coalesced_worker_buffer_cycle states f).0.dirty).1 ≡ false)
        × ((coalesced_worker_buffer_cycle states f).0.channel_ids ≡ f.channel_ids)
  unfolding coalesced_worker_buffer_cycle
  wake_cycle_lem f clean fits =
      let scratch = dedup (sort_by_key (λ k. k) f.channel_ids) in
      (
        omega (
          arith,
          length-scratch f.channel_ids,
          fresh_range (λ k. false) f.channel_ids,
          fresh_start f.channel_ids,
          take-mark_rounds f.dirty scratch clean,
        ),
        states.take-take (mark_rounds states f.dirty scratch),
        refl,
      )

  -- A new fixture, which marks eight channels in turn, returns their number, or eight if there are
  -- more, and one more unless it has no mark at all.
  pub new_wake-cycle :
      (n : ℕ)
      → n < u64_max
      → (coalesced_worker_buffer_cycle states (new_wake states n)).1 ≡ min n 8 + min n 1
  unfolding new_wake
  new_wake-cycle n fits =
      let size = length-tabulate (λ i. i % 8) n in
      (wake_cycle_lem (new_wake states n) states.take-default (omega (arith, size))).0
      ∙ omega (
        arith,
        size,
        fresh-tabulate (λ i. i % 8) 8 (λ i j less below e. omega arith)
            (λ j over. (j - 8, omega arith, omega arith)) n,
      )
