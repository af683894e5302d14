-- ===== src/Hardening/Keyframes.antt =====
-- `KeyframeCoalescingBenchmarkFixture` of src/performance_hardening.rs: the pending keyframe requests of
-- a source become one, by a sort or in a map.
pub mod Agreement
use o_sfu_benchmarks.Base.{
  ℕ, ◌%◌, ◌==◌, Option, none, some, List, [], ◌∷◌, map, length, tabulate, if◌then◌else◌,
  saturating_add, ltb, ℕ_discrete,
}
use o_sfu_benchmarks.Base.Map.{Key, Map, get, insert}
use o_sfu_benchmarks.Base.Sort.{sort_by_key}

pub data KeyframeKind : Type 0 where
  pli : KeyframeKind
  fir : KeyframeKind

unfoldable pub coalesce_kind : KeyframeKind → KeyframeKind → KeyframeKind
coalesce_kind fir other = fir
coalesce_kind pli fir = fir
coalesce_kind pli pli = pli

pub record PendingKeyframeRequest : Type 0 where
  pub source_media_id : ℕ
  pub rid : Option ℕ
  pub kind : KeyframeKind

pub record CoalescedKeyframeRequest : Type 0 where
  pub source_media_id : ℕ
  pub rid : Option ℕ
  pub kind : KeyframeKind

-- `Option::or`
abbrev pub or_else : {A : Type 0} → Option A → Option A → Option A
or_else none b = b
or_else (some a) b = some a

unfoldable pub coalesce :
    CoalescedKeyframeRequest → PendingKeyframeRequest → CoalescedKeyframeRequest
unfolding coalesce_kind
coalesce c request = record c {
  rid = or_else c.rid request.rid;
  kind = coalesce_kind c.kind request.kind;
}

pub record KeyframeFixture : Type 0 where
  pub requests : List PendingKeyframeRequest
  pub scratch : List CoalescedKeyframeRequest

unfoldable pub request_at : ℕ → PendingKeyframeRequest
request_at index = record {
  source_media_id = index % 16;
  rid = if index % 3 == 0 then some (index % 4) else none;
  kind = if index % 11 == 0 then fir else pli;
}

unfoldable pub new_keyframes : ℕ → KeyframeFixture
unfolding request_at
new_keyframes request_count = record { requests = tabulate request_at request_count; scratch = [] }

abbrev pub coalesced_of : PendingKeyframeRequest → CoalescedKeyframeRequest
coalesced_of request = record {
  source_media_id = request.source_media_id;
  rid = request.rid;
  kind = request.kind;
}

abbrev pub pending_of : CoalescedKeyframeRequest → PendingKeyframeRequest
pending_of request = record {
  source_media_id = request.source_media_id;
  rid = request.rid;
  kind = request.kind;
}

-- A request joins the current one of its source, or becomes the current one.
unfoldable pub scan_step :
    ℕ × Option CoalescedKeyframeRequest
    → CoalescedKeyframeRequest
    → ℕ × Option CoalescedKeyframeRequest
unfolding coalesce
scan_step (count, none) request = (count, some request)
scan_step (count, some current) request =
    if current.source_media_id == request.source_media_id
    then (count, some (coalesce current (pending_of request)))
    else (saturating_add count 1, some request)

unfoldable pub scan_rounds :
    ℕ × Option CoalescedKeyframeRequest
    → List CoalescedKeyframeRequest
    → ℕ × Option CoalescedKeyframeRequest
unfolding scan_step
scan_rounds s [] = s
scan_rounds s (request ∷ scratch) = scan_rounds (scan_step s request) scratch

-- The current request, if there is one, is counted at the end.
abbrev pub scan_end : ℕ × Option CoalescedKeyframeRequest → ℕ
scan_end (count, none) = count
scan_end (count, some current) = saturating_add count 1

unfoldable pub reusable_vec_coalescing_cycle : KeyframeFixture → KeyframeFixture × ℕ
unfolding scan_rounds sort_by_key
reusable_vec_coalescing_cycle f =
    let scratch = sort_by_key (λ r. r.source_media_id) (map coalesced_of f.requests) in
    (record f { scratch = scratch }, scan_end (scan_rounds (0, none) scratch))

abbrev pub number_key : Key ℕ
number_key = record { dec = ℕ_discrete; before = ltb }

-- `entry(..).and_modify(..).or_insert(..)`
unfoldable pub coalesce_entry :
    Map ℕ CoalescedKeyframeRequest → PendingKeyframeRequest → Map ℕ CoalescedKeyframeRequest
unfolding get insert coalesce
coalesce_entry coalesced request =
    insert number_key request.source_media_id
      (elim (get number_key request.source_media_id coalesced) [
        | none ↦ coalesced_of request
        | some c ↦ coalesce c request
      ])
      coalesced

unfoldable pub entry_rounds :
    Map ℕ CoalescedKeyframeRequest → List PendingKeyframeRequest → Map ℕ CoalescedKeyframeRequest
unfolding coalesce_entry
entry_rounds coalesced [] = coalesced
entry_rounds coalesced (request ∷ requests) =
    entry_rounds (coalesce_entry coalesced request) requests

unfoldable pub fresh_btree_coalescing_cycle : KeyframeFixture → ℕ
unfolding entry_rounds
fresh_btree_coalescing_cycle f = length (entry_rounds [] f.requests)
