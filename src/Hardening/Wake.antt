-- ===== src/Hardening/Wake.antt =====
-- `SourcePolicyWakeBenchmarkFixture` of src/performance_hardening.rs. `SourcePolicyDirtyState` is a
-- type of the crate o-sfu-core, so it is a parameter.
pub mod Marks
use o_sfu_benchmarks.Base.{
  ℕ, ◌+◌, ◌%◌, ◌≤◌, ◌==◌, Bool, true, false, List, [], ◌∷◌, ◌≡◌, refl, sym, ap, ◌∙◌, arith, length,
  tabulate, saturating_add, min, u64_max, if◌then◌else◌,
}
use o_sfu_benchmarks.Base.Sort.{sort_by_key, dedup, fresh}

-- The flag that `mark_dirty` sets and `take_dirty` returns and clears.
pub record DirtyStates (Dirty : Type 0) : Type 0 where
  pub default : Dirty
  pub mark_dirty : Dirty → Dirty
  pub take_dirty : Dirty → Dirty × Bool
  pub take-default : (take_dirty default).1 ≡ false
  pub take-mark : (d : Dirty) → (take_dirty (mark_dirty d)).1 ≡ true
  pub take-take : (d : Dirty) → (take_dirty (take_dirty d).0).1 ≡ false

pub record WakeFixture (Dirty : Type 0) : Type 0 where
  pub dirty : Dirty
  pub channel_ids : List ℕ
  pub scratch : List ℕ

-- `usize::from(bool)`
abbrev pub usize_of : Bool → ℕ
usize_of true = 1
usize_of false = 0

module _ {Dirty : Type 0} (states : DirtyStates Dirty) where
  unfoldable pub new_wake : ℕ → WakeFixture Dirty
  new_wake mark_count = record {
    dirty = states.default;
    channel_ids = tabulate (λ index. index % 8) mark_count;
    scratch = [];
  }

  -- One mark for each channel of the buffer.
  unfoldable pub mark_rounds : Dirty → List ℕ → Dirty
  mark_rounds dirty [] = dirty
  mark_rounds dirty (channel_id ∷ scratch) = mark_rounds (states.mark_dirty dirty) scratch

  unfoldable pub coalesced_worker_buffer_cycle : WakeFixture Dirty → WakeFixture Dirty × ℕ
  unfolding mark_rounds sort_by_key dedup
  coalesced_worker_buffer_cycle f =
      let scratch = dedup (sort_by_key (λ channel_id. channel_id) f.channel_ids) in
      let taken = states.take_dirty (mark_rounds f.dirty scratch) in
      (
        record f { dirty = taken.0; scratch = scratch },
        saturating_add (length scratch) (usize_of taken.1),
      )
