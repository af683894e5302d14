-- ===== src/Policy/Budget.antt =====
-- What a receiver of src/source_policy_refresh.rs has planned, and whether that is over its budget.
use mathlib.Core.List.{append_assoc, append-nil}
use o_sfu_benchmarks.Base.{
  ℕ, zero, suc, ◌+◌, ◌-◌, ◌≤◌, Bool, false, Option, none, some, List, [], ◌∷◌, ◌++◌, ◌≡◌, refl, sym,
  ap, ◌∙◌, arith, inl, inr, length, get_or, if◌then◌else◌, ltb, min, u64_max, true, Bool-cases, eqb,
  eqb_iff, ℕ_discrete, saturating_add,
}
use o_sfu_benchmarks.Base.Map.{Map, get, IsKeyed, insert-IsKeyed, get-insert}
use o_sfu_benchmarks.Policy.Defs.{
  RouteInput, number_key, selected_encoding_index, pushed, group_push,
}
use o_sfu_benchmarks.Policy.Cycles.{is_over, add_selected, group_inputs}

abbrev last_step : List ℕ → ℕ
last_step [] = 0
last_step (x ∷ []) = x
last_step (x ∷ y ∷ ladder) = last_step (y ∷ ladder)

-- A step of the ladder, the last one from there on.
abbrev capped_step : ℕ → List ℕ → ℕ
capped_step n [] = 0
capped_step zero (x ∷ ladder) = x
capped_step (suc n) (x ∷ []) = x
capped_step (suc n) (x ∷ y ∷ ladder) = capped_step n (y ∷ ladder)

-- The bitrate that a route gets: the last step of the ladder for a featured source, the first one for
-- a receiver of more than nine visible routes, the step it has for any other.
unfoldable pub step_bitrate : RouteInput → ℕ
step_bitrate route =
    if route.featured
    then last_step route.encodings
    else if ltb 9 route.visible_scalable_route_count
    then capped_step 0 route.encodings
    else capped_step route.current_selector route.encodings

abbrev pub bitrates : List RouteInput → ℕ
bitrates [] = 0
bitrates (route ∷ routes) = step_bitrate route + bitrates routes

-- The bitrates of the routes, up to the greatest `u64`, are more than the receiver's bandwidth.
unfoldable pub is_over_budget : Map ℕ ℕ → ℕ → List RouteInput → Bool
is_over_budget bandwidth consumer routes = elim (get number_key consumer bandwidth) [
  | none ↦ false
  | some budget ↦ ltb budget (min (bitrates routes) u64_max)
]

-- How many receivers are over their budget.
abbrev pub over_count : Map ℕ ℕ → Map ℕ (List RouteInput) → ℕ
over_count bandwidth [] = 0
over_count bandwidth ((consumer, routes) ∷ groups) =
    (if is_over_budget bandwidth consumer routes then 1 else 0) + over_count bandwidth groups

-- The routes of one receiver, in order.
unfoldable pub own : ℕ → List RouteInput → List RouteInput
own consumer [] = []
own consumer (route ∷ routes) =
    let rest = own consumer routes in
    if eqb ℕ_discrete consumer route.consumer then route ∷ rest else rest

abbrev pub if_any : {A : Type 0} → List A → Option (List A)
if_any [] = none
if_any (x ∷ xs) = some (x ∷ xs)

get_or-last : (ladder : List ℕ) → get_or ladder (length ladder - 1) 0 ≡ last_step ladder
get_or-last [] = refl
get_or-last (x ∷ []) = refl
get_or-last (x ∷ y ∷ ladder) =
    let next : length (x ∷ y ∷ ladder) - 1 ≡ suc (length (y ∷ ladder) - 1) = omega arith in
    ap (λ i. get_or (x ∷ y ∷ ladder) i 0) next ∙ get_or-last (y ∷ ladder)

get_or-capped :
    (n : ℕ) (ladder : List ℕ) → get_or ladder (min n (length ladder - 1)) 0 ≡ capped_step n ladder
get_or-capped n [] = refl
get_or-capped zero (x ∷ ladder) =
    let none_before : min 0 (length (x ∷ ladder) - 1) ≡ 0 = omega arith in rw none_before refl
get_or-capped (suc n) (x ∷ []) =
    let last : min (suc n) (length (x ∷ []) - 1) ≡ 0 = omega arith in rw last refl
get_or-capped (suc n) (x ∷ y ∷ ladder) =
    let next : min (suc n) (length (x ∷ y ∷ ladder) - 1) ≡ suc (min n (length (y ∷ ladder) - 1)) =
      omega arith in
    ap (λ i. get_or (x ∷ y ∷ ladder) i 0) next ∙ get_or-capped n (y ∷ ladder)

selected_at :
    (ladder : List ℕ) (current : ℕ) (featured : Bool) (visible : ℕ)
    → get_or ladder (selected_encoding_index ladder current featured visible) 0 ≡ (
        if featured
        then last_step ladder
        else if ltb 9 visible
        then capped_step 0 ladder
        else capped_step current ladder)
unfolding selected_encoding_index
selected_at [] current featured visible = ground arith
selected_at (x ∷ ladder) current true visible = get_or-last (x ∷ ladder)
selected_at (x ∷ ladder) current false visible = elim (Bool-cases (ltb 9 visible)) [
  | inl v ↦ rw v refl
  | inr v ↦ rw v (get_or-capped current (x ∷ ladder))
]

add_selected_lem :
    (selected : ℕ) (route : RouteInput)
    → add_selected selected route ≡ saturating_add selected (step_bitrate route)
unfolding add_selected step_bitrate
add_selected_lem selected route = ap (saturating_add selected) (
    selected_at route.encodings route.current_selector route.featured
      route.visible_scalable_route_count)

-- The sum that the code builds up, from one that fits.
abbrev pub sum_selected : ℕ → List RouteInput → ℕ
sum_selected selected [] = selected
sum_selected selected (route ∷ routes) = sum_selected (add_selected selected route) routes

pub sum_selected_lem :
    (selected : ℕ) (routes : List RouteInput)
    → selected ≤ u64_max
    → sum_selected selected routes ≡ min (selected + bitrates routes) u64_max
sum_selected_lem selected [] h = omega arith
sum_selected_lem selected (route ∷ routes) h =
    let first = add_selected_lem selected route in
    omega
      (arith, first, sum_selected_lem (add_selected selected route) routes (omega (arith, first)))

is_over_at :
    (bandwidth : Option ℕ) (routes : List RouteInput)
    → is_over bandwidth (sum_selected 0 routes)
      ≡ elim bandwidth [ none ↦ false | some budget ↦ ltb budget (min (bitrates routes) u64_max) ]
is_over_at none routes = refl
is_over_at (some budget) routes =
    ap (ltb budget) (sum_selected_lem 0 routes (omega arith) ∙ omega arith)

pub is_over_lem :
    (bandwidth : Map ℕ ℕ) (consumer : ℕ) (routes : List RouteInput)
    → is_over (get number_key consumer bandwidth) (sum_selected 0 routes)
      ≡ is_over_budget bandwidth consumer routes
unfolding is_over_budget
is_over_lem bandwidth consumer routes = is_over_at (get number_key consumer bandwidth) routes

joined : {A : Type 0} → Option (List A) → List A → Option (List A)
joined none ys = if_any ys
joined (some xs) ys = some (xs ++ ys)

joined-pushed :
    {A : Type 0} (o : Option (List A)) (x : A) (ys : List A)
    → joined (some (pushed x o)) ys ≡ joined o (x ∷ ys)
unfolding joined
joined-pushed none x ys = refl
joined-pushed (some xs) x ys = ap some (append_assoc xs (x ∷ []) ys)

joined_nil : {A : Type 0} (o : Option (List A)) → joined o [] ≡ o
unfolding joined
joined_nil none = refl
joined_nil (some xs) = ap some (append-nil xs)

-- Pushing a route onto the group of its consumer puts it before the others.
joined-get-group_push :
    (consumer : ℕ) (route : RouteInput) (groups : Map ℕ (List RouteInput)) (later : List RouteInput)
    → joined (get number_key consumer (group_push route.consumer route groups)) later
      ≡ joined
          (get number_key consumer groups)
          (if eqb ℕ_discrete consumer route.consumer then route ∷ later else later)
unfolding group_push
joined-get-group_push consumer route groups later =
    let k = route.consumer in
    let more = pushed route (get number_key k groups) in
    let there = get-insert number_key k consumer more groups in
    elim (Bool-cases (eqb ℕ_discrete consumer k)) [
      | inl same ↦
          let names : consumer ≡ k = (eqb_iff ℕ_discrete consumer k).0 same in
          rw (there, same)
            (joined-pushed (get number_key k groups) route later
              ∙ ap (λ c. joined (get number_key c groups) (route ∷ later)) (sym names))
      | inr other ↦ rw (there, other) refl
    ]

get-group_inputs :
    (consumer : ℕ) (groups : Map ℕ (List RouteInput)) (routes : List RouteInput)
    → get number_key consumer (group_inputs groups routes)
      ≡ joined (get number_key consumer groups) (own consumer routes)
unfolding group_inputs own
get-group_inputs consumer groups [] = sym (joined_nil (get number_key consumer groups))
get-group_inputs consumer groups (route ∷ routes) =
    get-group_inputs consumer (group_push route.consumer route groups) routes
    ∙ joined-get-group_push consumer route groups (own consumer routes)

-- A receiver's group is its planned routes, and it has one when there are any.
pub group_inputs_lem :
    (consumer : ℕ) (routes : List RouteInput)
    → get number_key consumer (group_inputs [] routes) ≡ if_any (own consumer routes)
unfolding joined get
group_inputs_lem consumer routes = get-group_inputs consumer [] routes

pub group_inputs-IsKeyed :
    (groups : Map ℕ (List RouteInput)) (routes : List RouteInput)
    → IsKeyed number_key groups
    → IsKeyed number_key (group_inputs groups routes)
unfolding group_inputs group_push
group_inputs-IsKeyed groups [] u = u
group_inputs-IsKeyed groups (route ∷ routes) u =
    group_inputs-IsKeyed (group_push route.consumer route groups) routes
      (insert-IsKeyed number_key route.consumer _ groups u)
