-- ===== src/Bitrate.antt =====
-- src/bitrate_counter.rs: three ways to add payload bytes to an atomic counter. The fixture is
-- used by one thread, so that an atomic is a plain number; an operation that changes the atomics
-- returns the new fixture.
pub mod Laws
use o_sfu_benchmarks.Base.{
  ℕ, ◌+◌, ◌%◌, Bool, true, false, List, [], ◌∷◌, length, tabulate, if◌then◌else◌, leb,
  saturating_add, saturating_sub, wrapping_add,
}

abbrev pub bitrate_window_nanos : ℕ
bitrate_window_nanos = 1_000_000_000

abbrev pub same_window_nanos : ℕ
same_window_nanos = 123_456_789

pub record BitrateFixture : Type 0 where
  pub payloads : List ℕ
  pub bytes_in_window : ℕ
  pub window_start_nanos : ℕ
  pub observed : Bool

unfoldable pub payload_bytes : ℕ → ℕ
payload_bytes index = saturating_add 172 (index % 1_229)

unfoldable pub new : ℕ → BitrateFixture
unfolding payload_bytes
new operation_count = record {
  payloads = tabulate payload_bytes operation_count;
  bytes_in_window = 0;
  window_start_nanos = 0;
  observed = false;
}

unfoldable pub operation_count_u64 : BitrateFixture → ℕ
operation_count_u64 f = length f.payloads

unfoldable pub reset_bytes : BitrateFixture → BitrateFixture
reset_bytes f = record f { bytes_in_window = 0 }

unfoldable pub reset_record : BitrateFixture → BitrateFixture
unfolding reset_bytes
reset_record f = record (reset_bytes f) { window_start_nanos = 0; observed = false }

unfoldable pub reset_expired_window : BitrateFixture → BitrateFixture
reset_expired_window f =
    if leb bitrate_window_nanos (saturating_sub same_window_nanos f.window_start_nanos)
    then record f { bytes_in_window = 0; window_start_nanos = same_window_nanos }
    else f

-- One payload, by `fetch_update`, by `fetch_add`, and by a load and a store.
unfoldable pub fetch_update : BitrateFixture → ℕ → BitrateFixture
fetch_update f bytes = record f { bytes_in_window = saturating_add f.bytes_in_window bytes }

unfoldable pub fetch_add : BitrateFixture → ℕ → BitrateFixture
fetch_add f bytes = record f { bytes_in_window = wrapping_add f.bytes_in_window bytes }

unfoldable pub load_store : BitrateFixture → ℕ → BitrateFixture
load_store f bytes =
    let current = f.bytes_in_window in record f { bytes_in_window = saturating_add current bytes }

unfoldable pub record_with_fetch_update : BitrateFixture → ℕ → BitrateFixture
unfolding reset_expired_window fetch_update
record_with_fetch_update f bytes = fetch_update (reset_expired_window f) bytes

unfoldable pub record_with_fetch_add : BitrateFixture → ℕ → BitrateFixture
unfolding reset_expired_window fetch_add
record_with_fetch_add f bytes = fetch_add (reset_expired_window f) bytes

unfoldable pub record_with_load_store : BitrateFixture → ℕ → BitrateFixture
unfolding reset_expired_window load_store
record_with_load_store f bytes = load_store (reset_expired_window f) bytes

-- `for payload_bytes in &self.payloads`, in the write cycles
unfoldable pub write_loop :
    (BitrateFixture → ℕ → BitrateFixture) → List ℕ → BitrateFixture → BitrateFixture
write_loop write [] f = f
write_loop write (bytes ∷ payloads) f = write_loop write payloads (write f bytes)

-- A write cycle returns the fixture and the final load.
unfoldable pub write_cycle :
    (BitrateFixture → ℕ → BitrateFixture) → BitrateFixture → BitrateFixture × ℕ
unfolding write_loop reset_bytes
write_cycle write f =
    let after = write_loop write f.payloads (reset_bytes f) in (after, after.bytes_in_window)

unfoldable pub current_fetch_update_write_cycle : BitrateFixture → BitrateFixture × ℕ
current_fetch_update_write_cycle = write_cycle fetch_update

unfoldable pub fetch_add_write_cycle : BitrateFixture → BitrateFixture × ℕ
fetch_add_write_cycle = write_cycle fetch_add

unfoldable pub single_writer_load_store_write_cycle : BitrateFixture → BitrateFixture × ℕ
single_writer_load_store_write_cycle = write_cycle load_store

-- The loop of the record cycles: `observed.swap(true)` counts the first observation.
unfoldable pub record_loop :
    (BitrateFixture → ℕ → BitrateFixture) → List ℕ → BitrateFixture → ℕ → BitrateFixture × ℕ
record_loop write [] f first_observations = (f, first_observations)
record_loop write (bytes ∷ payloads) f first_observations =
    let written = write f bytes in
    record_loop write payloads (record written { observed = true })
      (saturating_add first_observations (if written.observed then 0 else 1))

unfoldable pub record_cycle :
    (BitrateFixture → ℕ → BitrateFixture) → BitrateFixture → BitrateFixture × ℕ
unfolding record_loop reset_record
record_cycle write f =
    let (after, first_observations) = record_loop write f.payloads (reset_record f) 0 in
    (after, saturating_add after.bytes_in_window first_observations)

unfoldable pub current_fetch_update_record_cycle : BitrateFixture → BitrateFixture × ℕ
current_fetch_update_record_cycle = record_cycle record_with_fetch_update

unfoldable pub fetch_add_record_cycle : BitrateFixture → BitrateFixture × ℕ
fetch_add_record_cycle = record_cycle record_with_fetch_add

unfoldable pub single_writer_load_store_record_cycle : BitrateFixture → BitrateFixture × ℕ
single_writer_load_store_record_cycle = record_cycle record_with_load_store
