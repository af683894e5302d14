-- ===== src/Bitrate/Laws.antt =====
-- What the cycles of src/bitrate_counter.rs return, compared.
use mathlib.Core.Path.{fun_ext}
use o_sfu_benchmarks.Base.{
  ℕ, zero, suc, ◌+◌, ◌*◌, ◌%◌, ◌^◌, ◌≤◌, ◌≡◌, refl, ap, ap₂, ◌∙◌, true, false, List, [], ◌∷◌, arith,
  tabulate, if◌then◌else◌, is_empty, min, saturating_add, u64_max,
}
use o_sfu_benchmarks.Base.Sums.{sum, sum-append}
use o_sfu_benchmarks.Bitrate.{
  BitrateFixture, payload_bytes, new, reset_bytes, reset_record, reset_expired_window, fetch_update,
  fetch_add, load_store, record_with_fetch_update, record_with_fetch_add, record_with_load_store,
  write_loop, write_cycle, current_fetch_update_write_cycle, fetch_add_write_cycle,
  single_writer_load_store_write_cycle, record_loop, record_cycle,
  current_fetch_update_record_cycle, fetch_add_record_cycle, single_writer_load_store_record_cycle,
}

saturating_loop :
    (payloads : List ℕ) (f : BitrateFixture)
    → f.bytes_in_window ≤ u64_max
    → (write_loop fetch_update payloads f).bytes_in_window
      ≡ min (f.bytes_in_window + sum payloads) u64_max
unfolding write_loop fetch_update
saturating_loop [] f h = omega arith
saturating_loop (bytes ∷ payloads) f h =
    omega (arith, saturating_loop payloads (fetch_update f bytes) (omega arith))

wrapping_loop :
    (payloads : List ℕ) (f : BitrateFixture)
    → f.bytes_in_window ≤ u64_max
    → (write_loop fetch_add payloads f).bytes_in_window
      ≡ (f.bytes_in_window + sum payloads) % 2 ^ 64
unfolding write_loop fetch_add
wrapping_loop [] f h = omega arith
wrapping_loop (bytes ∷ payloads) f h =
    omega (arith, wrapping_loop payloads (fetch_add f bytes) (omega arith))

load_store-loop :
    (payloads : List ℕ) (f : BitrateFixture)
    → write_loop load_store payloads f ≡ write_loop fetch_update payloads f
unfolding write_loop fetch_update load_store
load_store-loop [] f = refl
load_store-loop (bytes ∷ payloads) f = load_store-loop payloads (fetch_update f bytes)

-- The write cycles count from zero whatever the counter held: `fetch_update` and the load with a
-- store give the sum of the payloads cut off at the greatest `u64`, in the same final state, and
-- `fetch_add` gives the sum modulo 2 ^ 64.
pub write_cycles_lem :
    (f : BitrateFixture)
    → ((current_fetch_update_write_cycle f).1 ≡ min (sum f.payloads) u64_max)
      × (single_writer_load_store_write_cycle f ≡ current_fetch_update_write_cycle f)
      × ((fetch_add_write_cycle f).1 ≡ sum f.payloads % 2 ^ 64)
unfolding current_fetch_update_write_cycle single_writer_load_store_write_cycle
    fetch_add_write_cycle write_cycle reset_bytes
write_cycles_lem f = (
  omega (arith, saturating_loop f.payloads (reset_bytes f) (omega arith)),
  ap (λ (after : BitrateFixture). (after, after.bytes_in_window))
      (load_store-loop f.payloads (reset_bytes f)),
  omega (arith, wrapping_loop f.payloads (reset_bytes f) (omega arith)),
)

-- The clock of the fixture stands still, less than a window after any start: no window expires.
pub reset_expired_window-eq : (f : BitrateFixture) → reset_expired_window f ≡ f
unfolding reset_expired_window
reset_expired_window-eq f = ground arith

-- So recording a payload is writing it.
record_with_fetch_update-eq : record_with_fetch_update ≡ fetch_update
unfolding record_with_fetch_update
record_with_fetch_update-eq =
    fun_ext λ f. fun_ext λ bytes. ap (λ g. fetch_update g bytes) (reset_expired_window-eq f)

record_with_fetch_add-eq : record_with_fetch_add ≡ fetch_add
unfolding record_with_fetch_add
record_with_fetch_add-eq =
    fun_ext λ f. fun_ext λ bytes. ap (λ g. fetch_add g bytes) (reset_expired_window-eq f)

record_with_load_store-eq : record_with_load_store ≡ fetch_update
unfolding record_with_load_store load_store fetch_update
record_with_load_store-eq =
    fun_ext λ f. fun_ext λ bytes. ap (λ g. fetch_update g bytes) (reset_expired_window-eq f)

module _ (write : BitrateFixture → ℕ → BitrateFixture)
    (keeps : (f : BitrateFixture) (bytes : ℕ) → (write f bytes).observed ≡ f.observed) where
  -- Once something was observed nothing is a first observation.
  record_loop-observed :
      (payloads : List ℕ) (f : BitrateFixture) (first : ℕ)
      → first ≤ u64_max
      → f.observed ≡ true
      → (record_loop write payloads f first).1 ≡ first
  unfolding record_loop
  record_loop-observed [] f first h o = refl
  record_loop-observed (bytes ∷ payloads) f first h o =
      let seen : (if (write f bytes).observed then 0 else 1) ≡ 0 = ground (arith, keeps f bytes) in
      let same : saturating_add first 0 ≡ first = omega arith in
      ap
        (λ n.
          (record_loop write payloads (record (write f bytes) { observed = true })
            (saturating_add first n)).1)
        seen
      ∙ record_loop-observed payloads (record (write f bytes) { observed = true })
          (saturating_add first 0) (omega arith) refl
      ∙ same

  record_loop-first :
      (payloads : List ℕ) (f : BitrateFixture)
      → f.observed ≡ false
      → (record_loop write payloads f 0).1 ≡ (if is_empty payloads then 0 else 1)
  unfolding record_loop
  record_loop-first [] f o = refl
  record_loop-first (bytes ∷ payloads) f o =
      let new_one : (if (write f bytes).observed then 0 else 1) ≡ 1 =
        ground (arith, keeps f bytes) in
      ap
        (λ n.
          (record_loop write payloads (record (write f bytes) { observed = true })
            (saturating_add 0 n)).1)
        new_one
      ∙ record_loop-observed payloads (record (write f bytes) { observed = true }) 1 (omega arith)
          refl

record_loop-saturating :
    (payloads : List ℕ) (f : BitrateFixture) (first : ℕ)
    → f.bytes_in_window ≤ u64_max
    → (record_loop fetch_update payloads f first).0.bytes_in_window
      ≡ min (f.bytes_in_window + sum payloads) u64_max
unfolding record_loop fetch_update
record_loop-saturating [] f first h = omega arith
record_loop-saturating (bytes ∷ payloads) f first h = omega (
  arith,
  record_loop-saturating payloads (record (fetch_update f bytes) { observed = true })
      (saturating_add first (if f.observed then 0 else 1)) (omega arith),
)

record_loop-wrapping :
    (payloads : List ℕ) (f : BitrateFixture) (first : ℕ)
    → f.bytes_in_window ≤ u64_max
    → (record_loop fetch_add payloads f first).0.bytes_in_window
      ≡ (f.bytes_in_window + sum payloads) % 2 ^ 64
unfolding record_loop fetch_add
record_loop-wrapping [] f first h = omega arith
record_loop-wrapping (bytes ∷ payloads) f first h = omega (
  arith,
  record_loop-wrapping payloads (record (fetch_add f bytes) { observed = true })
      (saturating_add first (if f.observed then 0 else 1)) (omega arith),
)

-- One for the first observation, if there is a payload to observe.
abbrev pub once : List ℕ → ℕ
once payloads = if is_empty payloads then 0 else 1

fetch_update_record :
    (f : BitrateFixture)
    → (record_cycle fetch_update f).1
      ≡ saturating_add (min (sum f.payloads) u64_max) (once f.payloads)
unfolding record_cycle reset_record
fetch_update_record f =
    let total : (record_loop fetch_update f.payloads (reset_record f) 0).0.bytes_in_window
        ≡ min (sum f.payloads) u64_max =
      omega (arith, record_loop-saturating f.payloads (reset_record f) 0 (omega arith)) in
    ap₂ saturating_add total (
      record_loop-first fetch_update (λ g b. unfold fetch_update in refl) f.payloads
        (reset_record f) refl)

fetch_add_record :
    (f : BitrateFixture)
    → (record_cycle fetch_add f).1 ≡ saturating_add (sum f.payloads % 2 ^ 64) (once f.payloads)
unfolding record_cycle reset_record
fetch_add_record f =
    let total : (record_loop fetch_add f.payloads (reset_record f) 0).0.bytes_in_window
        ≡ sum f.payloads % 2 ^ 64 =
      omega (arith, record_loop-wrapping f.payloads (reset_record f) 0 (omega arith)) in
    ap₂ saturating_add total (
      record_loop-first fetch_add (λ g b. unfold fetch_add in refl) f.payloads (reset_record f)
        refl)

-- The record cycles add one for the first observation, if there is a payload at all: by
-- `fetch_update` or a load with a store to the sum cut off at the greatest `u64`, and by
-- `fetch_add` to the sum modulo 2 ^ 64.
pub record_cycles_lem :
    (f : BitrateFixture)
    → ((current_fetch_update_record_cycle f).1
        ≡ saturating_add (min (sum f.payloads) u64_max) (once f.payloads))
      × (single_writer_load_store_record_cycle f ≡ current_fetch_update_record_cycle f)
      × ((fetch_add_record_cycle f).1 ≡ saturating_add (sum f.payloads % 2 ^ 64) (once f.payloads))
unfolding current_fetch_update_record_cycle single_writer_load_store_record_cycle
    fetch_add_record_cycle
record_cycles_lem f = (
  rw record_with_fetch_update-eq (fetch_update_record f),
  rw (record_with_load_store-eq, record_with_fetch_update-eq) refl,
  rw record_with_fetch_add-eq (fetch_add_record f),
)

-- A payload has 172 to 1,400 bytes.
payload_bytes-bounds : (i : ℕ) → (172 ≤ payload_bytes i) × (payload_bytes i ≤ 1_400)
unfolding payload_bytes
payload_bytes-bounds i = omega arith

sum_bounds :
    (n : ℕ)
    → (172 * n ≤ sum (tabulate payload_bytes n)) × (sum (tabulate payload_bytes n) ≤ 1_400 * n)
sum_bounds zero = omega arith
sum_bounds (suc n) = omega (
  arith,
  sum_bounds n,
  sum-append (tabulate payload_bytes n) (payload_bytes n ∷ []),
  payload_bytes-bounds n,
)

-- On a fixture that `new` builds for at most 10 ^ 16 operations nothing overflows: the three write
-- cycles return the same sum, of 172 to 1,400 bytes for each operation.
pub new-write_cycles :
    (n : ℕ)
    → n ≤ 10 ^ 16
    → let f = new n in
      ((fetch_add_write_cycle f).1 ≡ (current_fetch_update_write_cycle f).1)
      × ((single_writer_load_store_write_cycle f).1 ≡ (current_fetch_update_write_cycle f).1)
      × (172 * n ≤ (current_fetch_update_write_cycle f).1)
      × ((current_fetch_update_write_cycle f).1 ≤ 1_400 * n)
unfolding new
new-write_cycles n h =
    let (update, load, add) = write_cycles_lem (new n) in
    let small = sum_bounds n in (omega arith, ap (λ r. r.1) load, omega arith, omega arith)
