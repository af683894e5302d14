-- ===== src/Policy/Chosen.antt =====
-- The routes that both cycles of src/source_policy_refresh.rs plan, with their groups.
use o_sfu_benchmarks.Base.{
  ℕ, zero, suc, ◌+◌, ◌≤◌, ◌<◌, ◌||◌, not, Option, none, some, List, [], ◌∷◌, ◌≡◌, ◌≢◌, refl, sym,
  ap, ◌∙◌, arith, inl, inr, map, map-append, get_elem?-map, length, get_elem?, get_elem?_in_range,
  is_empty, All, if◌then◌else◌, Bool-cases,
}
use o_sfu_benchmarks.Base.Map.{Map, get, insert, get_nil, get-insert_of_ne, get-insert_same}
use o_sfu_benchmarks.Base.Map.Entries.{map_values, get-map_values, insert-map_values}
use o_sfu_benchmarks.Policy.Defs.{
  Source, Route, RouteInput, PolicyFixture, number_key, selectable_encoding_ladder, ladder_rounds,
  selectable_ladders_by_source, group_push, pushed,
}
use o_sfu_benchmarks.Policy.Cycles.{input_of, build_inputs, group_inputs, group_route, group_routes}

-- The map after a source.
abbrev entered : Map ℕ (List ℕ) → ℕ → Source → Map ℕ (List ℕ)
entered m i s =
    let ladder = selectable_encoding_ladder s in
    if is_empty ladder then m else insert number_key i ladder m

entered_at :
    (m : Map ℕ (List ℕ)) (i : ℕ) (s : Source)
    → get number_key i m ≡ none
    → get number_key i (entered m i s) ≡ (
        if is_empty (selectable_encoding_ladder s)
        then none
        else some (selectable_encoding_ladder s))
entered_at m i s new = elim (Bool-cases (is_empty (selectable_encoding_ladder s))) [
  | inl e ↦ rw e new
  | inr e ↦ rw e (get-insert_same number_key i (selectable_encoding_ladder s) m)
]

entered_other :
    (m : Map ℕ (List ℕ)) (i : ℕ) (s : Source) (k : ℕ)
    → k ≢ i
    → get number_key k (entered m i s) ≡ get number_key k m
entered_other m i s k u = elim (Bool-cases (is_empty (selectable_encoding_ladder s))) [
  | inl e ↦ rw e refl
  | inr e ↦ rw e (get-insert_of_ne number_key i k (selectable_encoding_ladder s) m u)
]

ladder_rounds_before :
    (m : Map ℕ (List ℕ)) (i : ℕ) (xs : List Source) (k : ℕ)
    → k < i
    → get number_key k (ladder_rounds m i xs) ≡ get number_key k m
unfolding ladder_rounds
ladder_rounds_before m i [] k h = refl
ladder_rounds_before m i (s ∷ xs) k h =
    ladder_rounds_before (entered m i s) (suc i) xs k (omega arith)
    ∙ entered_other m i s k (λ same. omega arith)

-- A source is entered under its position unless its ladder is empty.
ladder_rounds_at :
    (m : Map ℕ (List ℕ)) (i : ℕ) (xs : List Source) (j : ℕ) {s : Source}
    → get_elem? xs j ≡ some s
    → ((k : ℕ) → i ≤ k → get number_key k m ≡ none)
    → get number_key (i + j) (ladder_rounds m i xs) ≡ (
        if is_empty (selectable_encoding_ladder s)
        then none
        else some (selectable_encoding_ladder s))
unfolding ladder_rounds
ladder_rounds_at m i [] j h new = absurd cc
ladder_rounds_at m i (x ∷ xs) zero {s} h new =
    let same : x ≡ s = cc in
    ap (λ k. get number_key k (ladder_rounds (entered m i x) (suc i) xs)) (omega arith)
    ∙ ladder_rounds_before (entered m i x) (suc i) xs i (omega arith)
    ∙ entered_at m i x (new i (omega arith))
    ∙ ap
        (λ t.
          if is_empty (selectable_encoding_ladder t)
          then none
          else some (selectable_encoding_ladder t))
        same
ladder_rounds_at m i (x ∷ xs) (suc j) h new =
    ap (λ k. get number_key k (ladder_rounds (entered m i x) (suc i) xs)) (omega arith)
    ∙ ladder_rounds_at (entered m i x) (suc i) xs j h
        (λ k above. entered_other m i x k (λ same. omega arith) ∙ new k (omega arith))

-- The cached ladders are those of the sources, and each route leads to a source.
pub record IsConsistent (f : PolicyFixture) : Type 0 where
  pub in_range : All (λ r. r.source < length f.sources) f.routes
  pub cached : f.cached_ladders ≡ map selectable_encoding_ladder f.sources

pushed-map :
    {A B : Type 0} (g : A → B) (x : A) (o : Option (List A))
    → pushed (g x) (elim o [ none ↦ none | some xs ↦ some (map g xs) ]) ≡ map g (pushed x o)
pushed-map g x none = refl
pushed-map g x (some xs) = sym (map-append g xs (x ∷ []))

-- Pushing commutes with a function on the elements.
group_push-map :
    {A B : Type 0} (g : A → B) (k : ℕ) (x : A) (groups : Map ℕ (List A))
    → group_push k (g x) (map_values (map g) groups) ≡ map_values (map g) (group_push k x groups)
unfolding group_push
group_push-map g k x groups =
    let image = map_values (map g) groups in
    ap (λ o. insert number_key k (pushed (g x) o) image)
      (get-map_values number_key (map g) k groups)
    ∙ ap (λ ys. insert number_key k ys image) (pushed-map g x (get number_key k groups))
    ∙ insert-map_values number_key (map g) k (pushed x (get number_key k groups)) groups

-- The ladder that the rebuilding cycle finds for a source.
listed_ladder :
    (f : PolicyFixture) (j : ℕ) {s : Source}
    → get_elem? f.sources j ≡ some s
    → get number_key j (selectable_ladders_by_source f) ≡ (
        if is_empty (selectable_encoding_ladder s)
        then none
        else some (selectable_encoding_ladder s))
unfolding selectable_ladders_by_source
listed_ladder f j at =
    ap (λ k. get number_key k (ladder_rounds [] 0 f.sources)) (omega arith)
    ∙ ladder_rounds_at [] 0 f.sources j at (λ k h. get_nil number_key k)

module _ (f : PolicyFixture) (bandwidth visible : Map ℕ ℕ) where
  -- The positions and the inputs of the routes that are planned: those that are active, to an active
  -- source that has a ladder.
  unfoldable pub chosen : ℕ → List Route → List (ℕ × RouteInput)
  chosen i [] = []
  chosen i (r ∷ rs) =
      let rest = chosen (suc i) rs in
      elim (get_elem? f.sources r.source) [
        | none ↦ rest
        | some s ↦
            let ladder = selectable_encoding_ladder s in
            if not r.active || not s.active
            then rest
            else if is_empty ladder
            then rest
            else (i, input_of f bandwidth visible s ladder r) ∷ rest
      ]

  -- The groups of positions with their inputs.
  abbrev pub group_pairs :
      Map ℕ (List (ℕ × RouteInput)) → List (ℕ × RouteInput) → Map ℕ (List (ℕ × RouteInput))
  group_pairs groups [] = groups
  group_pairs groups (p ∷ ps) = group_pairs (group_push p.1.consumer p groups) ps

  -- The inputs that the rebuilding cycle plans.
  pub build_inputs-chosen :
      (i : ℕ) (rs : List Route)
      → All (λ r. r.source < length f.sources) rs
      → build_inputs f bandwidth visible (selectable_ladders_by_source f) rs
        ≡ some (map (λ p. p.1) (chosen i rs))
  unfolding build_inputs chosen
  build_inputs-chosen i [] u = refl
  build_inputs-chosen i (r ∷ rs) u =
      let (s, at) = get_elem?_in_range f.sources r.source u.0 in
      let listed = listed_ladder f r.source at in
      let rest = build_inputs-chosen (suc i) rs u.1 in
      elim (Bool-cases (not r.active || not s.active)) [
        | inl off ↦ rw (chosen, at, rest, off) refl
        | inr on ↦ elim (Bool-cases (is_empty (selectable_encoding_ladder s))) [
          | inl e ↦ rw (chosen, at, rest, on, listed, e) refl
          | inr e ↦ rw (chosen, at, rest, on, listed, e) refl
        ]
      ]

  pub group_inputs-pairs :
      (groups : Map ℕ (List (ℕ × RouteInput))) (ps : List (ℕ × RouteInput))
      → group_inputs (map_values (map (λ p. p.1)) groups) (map (λ p. p.1) ps)
        ≡ map_values (map (λ p. p.1)) (group_pairs groups ps)
  unfolding group_inputs
  group_inputs-pairs groups [] = refl
  group_inputs-pairs groups (p ∷ ps) =
      ap (λ g. group_inputs g (map (λ q. q.1) ps)) (group_push-map (λ q. q.1) p.1.consumer p groups)
      ∙ group_inputs-pairs (group_push p.1.consumer p groups) ps

  -- The positions that the other cycle plans.
  pub group_routes-pairs :
      (i : ℕ) (groups : Map ℕ (List (ℕ × RouteInput))) (rs : List Route)
      → f.cached_ladders ≡ map selectable_encoding_ladder f.sources
      → All (λ r. r.source < length f.sources) rs
      → group_routes f i (map_values (map (λ p. p.0)) groups) rs
        ≡ some (map_values (map (λ p. p.0)) (group_pairs groups (chosen i rs)))
  unfolding group_routes group_route chosen
  group_routes-pairs i groups [] cached u = refl
  group_routes-pairs i groups (r ∷ rs) cached u =
      let (s, at) = get_elem?_in_range f.sources r.source u.0 in
      let ladder : get_elem? f.cached_ladders r.source ≡ some (selectable_encoding_ladder s) =
        ap (λ l. get_elem? l r.source) cached
        ∙ get_elem?-map selectable_encoding_ladder f.sources r.source at in
      elim (Bool-cases (not r.active || not s.active)) [
        | inl off ↦ rw (chosen, at, off) (group_routes-pairs (suc i) groups rs cached u.1)
        | inr on ↦ elim (Bool-cases (is_empty (selectable_encoding_ladder s))) [
          | inl e ↦ rw (chosen, at, on, ladder, e) (group_routes-pairs (suc i) groups rs cached u.1)
          | inr e ↦
              let p : ℕ × RouteInput =
                (i, input_of f bandwidth visible s (selectable_encoding_ladder s) r) in
              rw (chosen, at, on, ladder, e)
                (ap (λ g. group_routes f (suc i) g rs)
                    (group_push-map (λ q. q.0) r.consumer p groups)
                  ∙ group_routes-pairs (suc i) (group_push r.consumer p groups) rs cached u.1)
        ]
      ]
