-- ===== src/Gate/Reindex.antt =====
-- Entering the positions of a tail anew, as src/consumer_packet_gate.rs does after a removal and to
-- build an index.
use o_sfu_benchmarks.Base.{
  ℕ, zero, suc, ◌+◌, ◌-◌, ◌<◌, some, List, [], ◌∷◌, ◌≡◌, ◌≢◌, ◌⊎◌, inl, inr, refl, sym, ap, ◌∙◌,
  arith, get_elem?, drop, dec_lt,
}
use o_sfu_benchmarks.Base.Map.{
  Key, Map, get, insert, remove, get_nil, get-remove_of_some, get-remove_of_ne, get-insert_of_ne,
  get-insert_same,
}
use o_sfu_benchmarks.Base.Arrays.{
  remove_at, get_elem?-drop, remove_at_source, remove_at_before, remove_at_behind,
}
use o_sfu_benchmarks.Gate.Index.{reindex, IsIndexed, IsIndexed-distinct, position_key}

module _ {A K : Type 0} (key : Key K) (key_of : A → K) where
  -- Two positions have two keys.
  abbrev pub IsDistinct : List A → Type 0
  IsDistinct xs =
      (p q : ℕ) (x y : A)
      → get_elem? xs p ≡ some x
      → get_elem? xs q ≡ some y
      → key_of x ≡ key_of y
      → p ≡ q

  get-reindex_miss :
      (xs : List A) (p : ℕ) (index : Map K ℕ) (k : K)
      → ((j : ℕ) (y : A) → get_elem? xs j ≡ some y → key_of y ≢ k)
      → get key k (reindex key key_of xs p index) ≡ get key k index
  unfolding reindex
  get-reindex_miss [] p index k none_there = refl
  get-reindex_miss (x ∷ xs) p index k none_there =
      get-reindex_miss xs (suc p) (insert key (key_of x) p index) k
        (λ j y h. none_there (suc j) y h)
      ∙ get-insert_of_ne key (key_of x) k p index (λ e. none_there 0 x refl (sym e))

  get-reindex_hit :
      (xs : List A) (p : ℕ) (index : Map K ℕ) (j : ℕ) (y : A)
      → get_elem? xs j ≡ some y
      → ((i : ℕ) (z : A) → get_elem? xs i ≡ some z → key_of z ≡ key_of y → i ≡ j)
      → get key (key_of y) (reindex key key_of xs p index) ≡ some (p + j)
  unfolding reindex
  get-reindex_hit [] p index j y h only = cc
  get-reindex_hit (x ∷ xs) p index zero y h only =
      let same : x ≡ y = cc in
      get-reindex_miss xs (suc p) (insert key (key_of x) p index) (key_of y)
        (λ j z at e. absurd (omega (arith, only (suc j) z at e)))
      ∙ ap (λ z. get key (key_of z) (insert key (key_of x) p index)) (sym same)
      ∙ get-insert_same key (key_of x) p index
      ∙ ap some (omega arith)
  get-reindex_hit (x ∷ xs) p index (suc j) y h only =
      get-reindex_hit xs (suc p) (insert key (key_of x) p index) j y h
        (λ i z at e. omega (arith, only (suc i) z at e))
      ∙ ap some (omega arith)

  find_in :
      (xs : List A) (k : K)
      → ((j : ℕ) × (y : A) × (get_elem? xs j ≡ some y) × (key_of y ≡ k))
        ⊎ ((j : ℕ) (y : A) → get_elem? xs j ≡ some y → key_of y ≢ k)
  find_in [] k = inr (λ j y h e. cc)
  find_in (x ∷ xs) k = elim (key.dec (key_of x) k) [
    | yes e ↦ inl (0, x, refl, e)
    | no u ↦ elim (find_in xs k) [
      | inl (j, y, at, named) ↦ inl (suc j, y, at, named)
      | inr absent ↦ inr (absent_cons x xs k u absent)
    ]
  ]
    where
      absent_cons :
          (x : A) (xs : List A) (k : K)
          → key_of x ≢ k
          → ((j : ℕ) (y : A) → get_elem? xs j ≡ some y → key_of y ≢ k)
          → (j : ℕ) (y : A) → get_elem? (x ∷ xs) j ≡ some y
          → key_of y ≢ k
      absent_cons x xs k u absent zero y h e =
          u (position_key key key_of (x ∷ xs) {p = 0} refl refl h ∙ e)
      absent_cons x xs k u absent (suc j) y h e = absent j y h e

  -- An index that holds the positions in front of a tail, and besides only keys of the tail, becomes
  -- the index of the whole list.
  reindex-IsIndexed :
      (xs : List A) (p : ℕ) (index : Map K ℕ)
      → IsDistinct xs
      → ((q : ℕ) (y : A) → q < p → get_elem? xs q ≡ some y → get key (key_of y) index ≡ some q)
      → ((k : K) (q : ℕ)
          → get key k index ≡ some q
          → ((j : ℕ) (y : A) → get_elem? (drop p xs) j ≡ some y → key_of y ≢ k)
          → (y : A) × (get_elem? xs q ≡ some y) × (key_of y ≡ k))
      → IsIndexed key key_of xs (reindex key key_of (drop p xs) p index)
  reindex-IsIndexed xs p index distinct front rest =
      let tail = drop p xs in
      let only : (j : ℕ) (y : A)
          → get_elem? tail j ≡ some y
          → (i : ℕ) (z : A) → get_elem? tail i ≡ some z
          → key_of z ≡ key_of y
          → i ≡ j =
        λ j y h i z k e. omega (
          arith,
          distinct (p + i) (p + j) z y (sym (get_elem?-drop p xs i) ∙ k)
              (sym (get_elem?-drop p xs j) ∙ h) e,
        ) in
      record {
        found = λ k q h. elim (find_in tail k) [
          | inl (j, y, at, named) ↦
              let hit = get-reindex_hit tail p index j y at (only j y at) in
              let same : p + j ≡ q = cc (hit, h, named) in
              (y, ap (get_elem? xs) (sym same) ∙ sym (get_elem?-drop p xs j) ∙ at, named)
          | inr absent ↦ rest k q (sym (get-reindex_miss tail p index k absent) ∙ h) absent
        ];
        listed = λ q y h. elim (dec_lt q p) [
          | yes before ↦
              get-reindex_miss tail p index (key_of y) (λ j z at e.
                absurd
                  (omega (arith, distinct (p + j) q z y (sym (get_elem?-drop p xs j) ∙ at) h e)))
              ∙ front q y before h
          | no behind ↦
              let back : p + (q - p) ≡ q = omega arith in
              let at = get_elem?-drop p xs (q - p) ∙ ap (get_elem? xs) back ∙ h in
              get-reindex_hit tail p index (q - p) y at (only (q - p) y at) ∙ ap some back
        ];
      }

  -- The index that a list is built with.
  pub new-IsIndexed :
      (xs : List A) → IsDistinct xs → IsIndexed key key_of xs (reindex key key_of xs 0 [])
  new-IsIndexed xs distinct =
      reindex-IsIndexed xs 0 [] distinct (λ q y below h. absurd (omega arith))
        (λ k q h absent. cc (h, get_nil key k))

  remove_at-IsDistinct : (xs : List A) (p : ℕ) → IsDistinct xs → IsDistinct (remove_at xs p)
  remove_at-IsDistinct xs p distinct i j x y h k e = elim (remove_at_source xs p i h) [
    | inl (before_i, at_i) ↦ elim (remove_at_source xs p j k) [
      | inl (before_j, at_j) ↦ distinct i j x y at_i at_j e
      | inr (behind_j, at_j) ↦ absurd (omega (arith, distinct i (suc j) x y at_i at_j e))
    ]
    | inr (behind_i, at_i) ↦ elim (remove_at_source xs p j k) [
      | inl (before_j, at_j) ↦ absurd (omega (arith, distinct (suc i) j x y at_i at_j e))
      | inr (behind_j, at_j) ↦ omega (arith, distinct (suc i) (suc j) x y at_i at_j e)
    ]
  ]

  -- Removing an element, and entering those behind it anew.
  pub stable-IsIndexed :
      (xs : List A) (index : Map K ℕ) (p : ℕ) (x : A)
      → IsIndexed key key_of xs index
      → get_elem? xs p ≡ some x
      → IsIndexed key key_of
          (remove_at xs p)
          (reindex key key_of (drop p (remove_at xs p)) p (remove key (key_of x) index))
  stable-IsIndexed xs index p x v at =
      let ys = remove_at xs p in
      let distinct : IsDistinct xs = IsIndexed-distinct key key_of v in
      reindex-IsIndexed ys p (remove key (key_of x) index) (remove_at-IsDistinct xs p distinct)
        (λ q y below h.
          let was = sym (remove_at_before xs p q below) ∙ h in
          get-remove_of_ne key (key_of x) (key_of y) index
            (λ e. absurd (omega (arith, distinct q p y x was at e)))
          ∙ v.listed q y was)
        (λ k q h absent.
          let (other, was) = get-remove_of_some key (key_of x) k index h in
          let (y, at_q, named) = v.found k q was in
          elim (dec_lt q p) [
            | yes below ↦ (y, remove_at_before xs p q below ∙ at_q, named)
            | no above ↦ elim (dec_lt p q) [
              | no same ↦
                  absurd (other (sym named ∙ position_key key key_of xs (omega arith) at_q at))
              | yes behind ↦
                  let back : suc (p + (q - suc p)) ≡ q = omega arith in
                  absurd (
                    absent (q - suc p) y
                      (get_elem?-drop p ys (q - suc p)
                        ∙ remove_at_behind xs p (p + (q - suc p)) (omega arith)
                        ∙ ap (get_elem? xs) back
                        ∙ at_q)
                      named)
            ]
          ])
