-- ===== src/Gate/Index.antt =====
-- An index from keys to positions of a `Vec`, as src/consumer_packet_gate.rs keeps it: what it means
-- that the two agree, and how pushing, removing and swapping keep it so.
use o_sfu_benchmarks.Base.{
  ℕ, suc, ◌-◌, ◌≤◌, ◌<◌, ◌==◌, none, some, List, [], ◌∷◌, ◌++◌, ◌≡◌, ◌≢◌, inl, inr, refl, sym, ap,
  ◌∙◌, arith, length, get_elem?, if◌then◌else◌, eqb, eqb_iff, eqb_self, Bool-cases, dec_lt,
}
use o_sfu_benchmarks.Base.Map.{
  Key, Map, get, insert, remove, get-insert, get-remove_of_some, get-remove_of_ne,
}
use o_sfu_benchmarks.Base.Arrays.{
  swap_remove, last, get_elem?_range, get_elem?-push, get_elem?-push_of_some, swap_remove_stays,
  swap_remove_moved, swap_remove_end, swap_remove_source, last-get_elem?,
}

module _ {A K : Type 0} (key : Key K) (key_of : A → K) where
  -- Each position is entered under the key of what stands there, from a position on. With an empty
  -- index this is `iter().enumerate().map(..).collect()`.
  unfoldable pub reindex : List A → ℕ → Map K ℕ → Map K ℕ
  reindex [] position index = index
  reindex (x ∷ xs) position index = reindex xs (suc position) (insert key (key_of x) position index)

  -- The index holds the position of each key, and nothing else.
  pub record IsIndexed (xs : List A) (index : Map K ℕ) : Type 0 where
    pub found :
        (k : K) (p : ℕ)
        → get key k index ≡ some p
        → (x : A) × (get_elem? xs p ≡ some x) × (key_of x ≡ k)
    pub listed : (p : ℕ) (x : A) → get_elem? xs p ≡ some x → get key (key_of x) index ≡ some p

  -- Two positions have two keys.
  pub IsIndexed-distinct :
      {xs : List A} {index : Map K ℕ}
      → IsIndexed xs index
      → (p q : ℕ) (x y : A) → get_elem? xs p ≡ some x
      → get_elem? xs q ≡ some y
      → key_of x ≡ key_of y
      → p ≡ q
  IsIndexed-distinct v p q x y h k e = cc (v.listed p x h, v.listed q y k)

  pub position_key :
      (xs : List A) {p q : ℕ} {x y : A}
      → p ≡ q
      → get_elem? xs p ≡ some x
      → get_elem? xs q ≡ some y
      → key_of x ≡ key_of y
  position_key xs e h k = cc

  pub push-IsIndexed :
      (xs : List A) (index : Map K ℕ) (x : A)
      → IsIndexed xs index
      → get key (key_of x) index ≡ none
      → IsIndexed (xs ++ x ∷ []) (insert key (key_of x) (length xs) index)
  push-IsIndexed xs index x v fresh = record {
    found = λ k p h. elim (key.dec k (key_of x)) [
      | yes e ↦ (
        x,
        ground (arith, h, get_elem?-push xs x p, get-insert key (key_of x) k (length xs) index),
        sym e,
      )
      | no u ↦
          let (y, at, named) =
            v.found k p (ground (arith, h, get-insert key (key_of x) k (length xs) index)) in
          (y, get_elem?-push_of_some xs x p at, named)
    ];
    listed = λ p y h. elim (Bool-cases (p == length xs)) [
      | inl at_end ↦ ground (
        arith,
        h,
        get_elem?-push xs x p,
        get-insert key (key_of x) (key_of y) (length xs) index,
        eqb_self key.dec (key_of x),
      )
      | inr before ↦ ground (
        arith,
        h,
        fresh,
        v.listed p y,
        get_elem?-push xs x p,
        get-insert key (key_of x) (key_of y) (length xs) index,
        eqb_iff key.dec (key_of y) (key_of x),
      )
    ];
  }

  -- The entry of the element that a swap has put at a position, if there is one.
  unfoldable pub reenter : List A → ℕ → Map K ℕ → Map K ℕ
  reenter xs p index = elim (get_elem? xs p) [
    | none ↦ index
    | some x ↦ insert key (key_of x) p index
  ]

  get-reenter_of_none :
      (xs : List A) (p : ℕ) (index : Map K ℕ) (k : K)
      → get_elem? xs p ≡ none
      → get key k (reenter xs p index) ≡ get key k index
  unfolding reenter
  get-reenter_of_none xs p index k h = rw (reenter, h) refl

  get-reenter_of_some :
      (xs : List A) (p : ℕ) (index : Map K ℕ) (k : K) {x : A}
      → get_elem? xs p ≡ some x
      → get key k (reenter xs p index)
        ≡ (if eqb key.dec k (key_of x) then some p else get key k index)
  unfolding reenter
  get-reenter_of_some xs p index k {x} h = rw (reenter, h) (get-insert key (key_of x) k p index)

  -- The removed element is the last one.
  swap_at_end :
      (xs : List A) (index : Map K ℕ) (p : ℕ) (x l : A)
      → IsIndexed xs index
      → get_elem? xs p ≡ some x
      → last xs ≡ some l
      → length xs ≤ suc p
      → IsIndexed (swap_remove xs p) (reenter (swap_remove xs p) p (remove key (key_of x) index))
  swap_at_end xs index p x l v at is_last at_end =
      let room = get_elem?_range xs p at in
      let ix = remove key (key_of x) index in
      let same = λ (k : K).
        get-reenter_of_none (swap_remove xs p) p ix k (swap_remove_end xs p room is_last at_end) in
      record {
        found = λ k q h.
            let (other, was) = get-remove_of_some key (key_of x) k index (sym (same k) ∙ h) in
            let (y, at_q, named) = v.found k q was in
            let here : q ≢ p = λ e. other (sym named ∙ position_key xs e at_q at) in
            (
              y,
              swap_remove_stays xs p room is_last q at_q here
                  (λ e. here (omega (arith, get_elem?_range xs q at_q))),
              named,
            );
        listed = λ q y h. elim (swap_remove_source xs p room is_last q h).1 [
          | inl (e, f) ↦ absurd (omega (arith, (swap_remove_source xs p room is_last q h).0))
          | inr (u, was) ↦
              same (key_of y)
              ∙ get-remove_of_ne key (key_of x) (key_of y) index
                  (λ e. u (IsIndexed-distinct v q p y x was at e))
              ∙ v.listed q y was
        ];
      }

  -- The last element takes the place of another.
  swap_inside :
      (xs : List A) (index : Map K ℕ) (p : ℕ) (x l : A)
      → IsIndexed xs index
      → get_elem? xs p ≡ some x
      → last xs ≡ some l
      → get_elem? xs (length xs - 1) ≡ some l
      → suc p < length xs
      → IsIndexed (swap_remove xs p) (reenter (swap_remove xs p) p (remove key (key_of x) index))
  swap_inside xs index p x l v at is_last last_at inside =
      let room = get_elem?_range xs p at in
      let ix = remove key (key_of x) index in
      let moved = swap_remove_moved xs p room is_last inside in
      let look = λ (k : K). get-reenter_of_some (swap_remove xs p) p ix k moved in
      record {
        found = λ k q h. elim (key.dec k (key_of l)) [
          | yes e ↦
              let hit : p ≡ q = ground (arith, h, look k) in
              (l, ap (get_elem? (swap_remove xs p)) (sym hit) ∙ moved, sym e)
          | no u ↦
              let (other, was) =
                get-remove_of_some key (key_of x) k index (ground (arith, h, look k)) in
              let (y, at_q, named) = v.found k q was in
              (
                y,
                swap_remove_stays xs p room is_last q at_q
                    (λ e. other (sym named ∙ position_key xs e at_q at))
                    (λ e. u (sym named ∙ position_key xs e at_q last_at)),
                named,
              )
        ];
        listed = λ q y h. elim (swap_remove_source xs p room is_last q h).1 [
          | inl (e, f) ↦
              ground (arith, look (key_of y), eqb_iff key.dec (key_of y) (key_of l), ap key_of f, e)
          | inr (u, was) ↦
              let end_apart : key_of y ≢ key_of l = λ e. absurd (
                omega (
                  arith,
                  IsIndexed-distinct v q (length xs - 1) y l was last_at e,
                  (swap_remove_source xs p room is_last q h).0,
                )) in
              let kept =
                get-remove_of_ne key (key_of x) (key_of y) index
                  (λ e. u (IsIndexed-distinct v q p y x was at e))
                ∙ v.listed q y was in
              ground
                (arith, look (key_of y), kept, end_apart, eqb_iff key.dec (key_of y) (key_of l))
        ];
      }

  pub swap-IsIndexed :
      (xs : List A) (index : Map K ℕ) (p : ℕ) (x : A)
      → IsIndexed xs index
      → get_elem? xs p ≡ some x
      → IsIndexed (swap_remove xs p) (reenter (swap_remove xs p) p (remove key (key_of x) index))
  swap-IsIndexed xs index p x v at =
      let room = get_elem?_range xs p at in
      let (l, is_last, last_at) = last-get_elem? xs p room in
      elim (dec_lt (suc p) (length xs)) [
        | yes inside ↦ swap_inside xs index p x l v at is_last last_at inside
        | no at_end ↦ swap_at_end xs index p x l v at is_last (omega arith)
      ]
