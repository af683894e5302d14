-- ===== src/Tests/Counters.antt =====
-- src/bitrate_counter.rs: tests and instances.
use o_sfu_benchmarks.Base.{
  ◌*◌, ◌%◌, ◌^◌, ◌≤◌, ◌≡◌, refl, arith, false, [], ◌∷◌, min, saturating_add, u64_max,
}
use o_sfu_benchmarks.Bitrate.{
  BitrateFixture, new, write_cycle, fetch_update, fetch_add, current_fetch_update_write_cycle,
  fetch_add_write_cycle, single_writer_load_store_write_cycle, current_fetch_update_record_cycle,
  fetch_add_record_cycle, single_writer_load_store_record_cycle,
}
use o_sfu_benchmarks.Base.Sums.{sum}
use o_sfu_benchmarks.Bitrate.Laws.{once, write_cycles_lem, record_cycles_lem, new-write_cycles}

-- Payloads whose sum does not fit a `u64`.
abbrev large : BitrateFixture
large = record {
  payloads = u64_max ∷ 3 ∷ [];
  bytes_in_window = 7;
  window_start_nanos = 0;
  observed = false;
}

large_differs :
    ((current_fetch_update_write_cycle large).1 ≡ u64_max) × ((fetch_add_write_cycle large).1 ≡ 2)
unfolding current_fetch_update_write_cycle fetch_add_write_cycle write_cycle fetch_update fetch_add
large_differs = (refl, refl)

write_cycles_lem_example :
    ((current_fetch_update_write_cycle large).1 ≡ min (sum large.payloads) u64_max)
    × (single_writer_load_store_write_cycle large ≡ current_fetch_update_write_cycle large)
    × ((fetch_add_write_cycle large).1 ≡ sum large.payloads % 2 ^ 64)
write_cycles_lem_example = write_cycles_lem large

record_cycles_lem_example :
    ((current_fetch_update_record_cycle large).1
      ≡ saturating_add (min (sum large.payloads) u64_max) (once large.payloads))
    × (single_writer_load_store_record_cycle large ≡ current_fetch_update_record_cycle large)
    × ((fetch_add_record_cycle large).1
        ≡ saturating_add (sum large.payloads % 2 ^ 64) (once large.payloads))
record_cycles_lem_example = record_cycles_lem large

new-write_cycles_example :
    ((fetch_add_write_cycle (new 5)).1 ≡ (current_fetch_update_write_cycle (new 5)).1)
    × ((single_writer_load_store_write_cycle (new 5)).1
        ≡ (current_fetch_update_write_cycle (new 5)).1)
    × (172 * 5 ≤ (current_fetch_update_write_cycle (new 5)).1)
    × ((current_fetch_update_write_cycle (new 5)).1 ≤ 1_400 * 5)
new-write_cycles_example = new-write_cycles 5 (omega arith)
