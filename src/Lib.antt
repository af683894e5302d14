-- ===== src/Lib.antt =====
-- Verification of the benchmark fixtures of o-sfu (the crate o-sfu-benchmarks).
--
-- The repository holds fixtures: each builds a small state, runs one hot path of a selective
-- forwarding unit in two or three variants, and returns a count or a checksum. A benchmark compares
-- the variants, which means something only if they do the same work. So the theorems say what each
-- variant computes, and that the variants of a fixture agree.
--
-- The parts, which do not call each other, and where they are modelled:
--   Demux        src/rtc_udp_demux.rs. `RemoteAddrDemux` (Demux/Defs) is BenchmarkRemoteAddrDemux,
--                its four maps as its fields and one function for each method; a method on
--                `&mut self` returns the new state. Demux/Fixture has both fixtures with `new`
--                (new_demux, new_recovery) and their cycles; the loop of `new` over the indices is
--                recursion on the count. Demux/Routes, Candidates, Cycles and Recovery hold the proofs.
--   Fingerprint  src/routing_miss_fingerprint.rs: packet_fingerprint_scalar, load_u64_padded, the
--                fixture and its constructors (new, miss_gate_mix).
--   Simd         src/simd_packet_hotpath.rs: packet_fingerprint_simd (Simd/Fingerprint), the H.264
--                payload scanner (Simd/H264), the batched VP8 scanner (Simd/Vp8), and the three
--                fixtures with what they build (Simd/Fixture). `Target` picks one of the three
--                `cfg(target_arch)` bodies of a function.
--   ColdPath     src/packet_loop_cold_path.rs: the ingress, route planning and incoming stats
--                fixtures (Ingress, Routes, Stats), the inline and the cold variant of each cycle,
--                and what they share (Checksum).
--   Bitrate      src/bitrate_counter.rs: the counter with fetch_update, fetch_add, and a load with a
--                store, each with and without the window reset.
--   Fanout       src/local_vp8_fanout.rs: the payload of a shared buffer rewritten for each
--                destination, with the descriptor parsed again or once.
--   Metrics      src/packet_metrics.rs: worker threads that count in shared atomics, in atomics of
--                their own, or in local numbers. Metrics/System has the threads as a step relation.
--   Gate         src/consumer_packet_gate.rs. Gate/Defs has the destinations and their gates, Gate/Batch
--                the fixture that updates gates, Gate/Maintenance the one that replaces destinations.
--                Gate/Index and Gate/Reindex say what it means that an index agrees with a `Vec`.
--   Hardening    src/performance_hardening.rs: a wake-up cycle (Wake), keyframe requests coalesced by a
--                sort or in a map (Keyframes), and the planning of routes (Planning).
--   Policy       src/source_policy_refresh.rs: the sources and routes (Defs), the ladders of bitrates
--                (Ladder), the two cycles (Cycles), the routes that both plan (Chosen, Scores), the
--                visible routes of a receiver (Visible), and its budget (Budget).
--   Session      The interface of o-sfu-core's TransportSessionKey, UserId and TransportMediaId.
--   Base         Shared types and lemmas: tests, lists, machine words, maps, signed integers, bits,
--                sums, sorting, and positions in arrays.
--   Tests        Runs of the definitions, and the theorems at concrete inputs.
--
-- Conventions. A byte, a `u64` or a `usize` is a native natural number; `usize` has 64 bits. Where
-- the code saturates or wraps, the definition names it (saturating_add, wrapping_add, Base/Word). A
-- slice or a `Vec` is a list; a map is an association list in iteration order. An `Option` is
-- returned where the code returns one, and where it can panic (a remainder by zero sessions in
-- ColdPath/Ingress, a position out of range in Gate and Policy, an index or a slice out of range in
-- the STAP-A scanner of Simd/H264). The `while` loop of stap_a_contains_idr_simd runs on fuel, one
-- more than the length of the payload, and each round takes two bytes at least; every other loop
-- is structural recursion. The atomics of the bitrate counter are plain numbers, since the fixture
-- is used by one thread. The threads of Metrics take steps in any order, each one atomic access, or
-- one half of `Barrier::wait`: to be counted, and to go on when all are. `black_box` is the identity.
--
-- Parameters, which stand for code that the repository only calls: the session key type with its
-- constructor, accessors and order, and the media id type (Session); the production fingerprint
-- (Fingerprint/Fixture); the scalar H.264 and VP8 scanners of o-sfu-rfc (Simd/Fixture, Simd/Vp8), of
-- which the theorem on the VP8 fixture assumes that the VP8 one follows RFC 7741 on payloads that have
-- neither the X bit nor the reserved bit before the partition index (IsRfc7741 in
-- Simd/Fixture/Packets); the VP8 descriptor parser and rewriter of o-sfu-rfc (Fanout), of which a
-- theorem assumes that rewriting a slice in place keeps its length; and the dirty flag of o-sfu-core
-- (Hardening/Wake), which is taken once after it is set.
-- The vector instructions of std::arch are modelled over lanes in Simd/Vector.
--
-- Not modelled: the benchmark drivers under benches/, which only time the cycles.
pub mod Base
pub mod Session
pub mod Demux
pub mod Fingerprint
pub mod Simd
pub mod ColdPath
pub mod Bitrate
pub mod Fanout
pub mod Metrics
pub mod Gate
pub mod Hardening
pub mod Policy
pub mod Tests
