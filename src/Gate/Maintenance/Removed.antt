-- ===== src/Gate/Maintenance/Removed.antt =====
-- What the two removals of src/consumer_packet_gate.rs have in common: every element but the removed
-- one is kept.
use o_sfu_benchmarks.Base.{
  ℕ, suc, ◌-◌, ◌<◌, some, List, ◌≡◌, ◌≢◌, inl, inr, sym, ap, ◌∙◌, arith, length, get_elem?,
  ℕ_discrete, dec_lt,
}
use o_sfu_benchmarks.Base.Arrays.{
  remove_at, swap_remove, length-remove_at, length-swap_remove, remove_at_source, remove_at_before,
  remove_at_behind, swap_remove_stays, swap_remove_moved, swap_remove_source, last-get_elem?,
}

-- An element stands in a list.
abbrev pub Stands {ℓ} : {A : Type ℓ} → List A → A → Type ℓ
Stands xs x = (q : ℕ) × (get_elem? xs q ≡ some x)

-- `ys` is `xs` without what stands at position `p`.
pub record IsRemoved {ℓ} {A : Type ℓ} (xs : List A) (p : ℕ) (ys : List A) : Type ℓ where
  pub shorter : suc (length ys) ≡ length xs
  pub source :
      (q : ℕ) (x : A) → get_elem? ys q ≡ some x → (r : ℕ) × (r ≢ p) × (get_elem? xs r ≡ some x)
  pub kept : (r : ℕ) (x : A) → get_elem? xs r ≡ some x → r ≢ p → Stands ys x

module _ {ℓ} {A : Type ℓ} (xs : List A) (p : ℕ) (room : p < length xs) where
  pub remove_at-IsRemoved : IsRemoved xs p (remove_at xs p)
  remove_at-IsRemoved = record {
    shorter = length-remove_at xs p room;
    source = λ q x h. elim (remove_at_source xs p q h) [
      | inl (before, at) ↦ (q, omega arith, at)
      | inr (behind, at) ↦ (suc q, omega arith, at)
    ];
    kept = λ r x h u. elim (dec_lt r p) [
      | yes before ↦ (r, remove_at_before xs p r before ∙ h)
      | no behind ↦
          let back : suc (r - 1) ≡ r = omega (arith, u) in
          (r - 1, remove_at_behind xs p (r - 1) (omega arith) ∙ ap (get_elem? xs) back ∙ h)
    ];
  }

  pub swap_remove-IsRemoved : IsRemoved xs p (swap_remove xs p)
  swap_remove-IsRemoved =
      let (l, is_last, last_at) = last-get_elem? xs p room in
      record {
        shorter = length-swap_remove xs p room;
        source = λ q x h.
            let (inside, from) = swap_remove_source xs p room is_last q h in
            elim from [
              | inl (here, moved) ↦ (length xs - 1, omega arith, last_at ∙ ap some (sym moved))
              | inr (other, at) ↦ (q, other, at)
            ];
        kept = λ r x h u. elim (ℕ_discrete r (length xs - 1)) [
          | no inner ↦ (r, swap_remove_stays xs p room is_last r h u inner)
          | yes at_end ↦ (
            p,
            swap_remove_moved xs p room is_last (omega arith)
                ∙ sym last_at
                ∙ ap (get_elem? xs) (sym at_end)
                ∙ h,
          )
        ];
      }
