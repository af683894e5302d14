-- ===== src/Policy/Ladder.antt =====
-- The ladder of a source in src/source_policy_refresh.rs, and the choice of a step.
use o_sfu_benchmarks.Base.{
  ℕ, zero, suc, ◌≤◌, ◌<◌, Bool, List, [], ◌∷◌, ◌++◌, ◌≡◌, refl, sym, ap, ◌∙◌, arith, map, length,
  tabulate, get_or, take, take_all, length-map, map-tabulate,
}
use o_sfu_benchmarks.Base.Sort.{IsSorted, sort_by_key-IsSorted, count, count-sort_by_key}
use o_sfu_benchmarks.Policy.Defs.{
  Source, bitrate_at, selectable_encoding_ladder, selected_encoding_index,
}

take-push :
    (n : ℕ) (xs : List ℕ) → n < length xs → take (suc n) xs ≡ take n xs ++ get_or xs n 0 ∷ []
take-push n [] h = absurd (omega arith)
take-push zero (x ∷ xs) h = refl
take-push (suc n) (x ∷ xs) h = ap (λ ys. x ∷ ys) (take-push n xs (omega arith))

read_first : (xs : List ℕ) (n : ℕ) → n ≤ length xs → tabulate (bitrate_at xs) n ≡ take n xs
read_first xs zero h = refl
read_first xs (suc n) h =
    ap (λ ys. ys ++ bitrate_at xs n ∷ []) (read_first xs n (omega arith))
    ∙ sym (take-push n xs (omega arith))

-- Reading a list at each position gives the list.
read_all : (xs : List ℕ) (n : ℕ) → length xs ≡ n → map (bitrate_at xs) (tabulate (λ i. i) n) ≡ xs
read_all xs n e =
    map-tabulate (bitrate_at xs) (λ i. i) n
    ∙ read_first xs n (omega arith)
    ∙ take_all n xs (omega arith)

-- The ladder of a source holds the bitrates of its encodings, each as often as they do, in order.
pub ladder_lem :
    (source : Source)
    → IsSorted (selectable_encoding_ladder source)
      × ((p : ℕ → Bool)
          → count p (selectable_encoding_ladder source)
            ≡ count p (map (λ e. e.max_bitrate_bps) source.encodings))
unfolding selectable_encoding_ladder
ladder_lem source =
    let bitrates = map (λ e. e.max_bitrate_bps) source.encodings in
    let indexes = tabulate (λ i. i) (length source.encodings) in
    (
      sort_by_key-IsSorted (bitrate_at bitrates) indexes,
      λ p.
          count-sort_by_key (bitrate_at bitrates) p indexes
          ∙ ap (count p) (
              read_all bitrates (length source.encodings)
                (length-map (λ e. e.max_bitrate_bps) source.encodings)),
    )

-- On a ladder with a step, a step of the ladder is selected: the last one for a featured source, the
-- first one among more than nine routes, and else the current one or the last.
pub selected_index_range :
    (encodings : List ℕ) (current : ℕ) (featured : Bool) (visible : ℕ)
    → 0 < length encodings
    → selected_encoding_index encodings current featured visible < length encodings
unfolding selected_encoding_index
selected_index_range [] current featured visible h = absurd (omega arith)
selected_index_range (x ∷ xs) current featured visible h = ground arith
