-- ===== src/ColdPath/Checksum.antt =====
-- The helpers of src/packet_loop_cold_path.rs that its parts share: session keys, their checksum
-- and packet fingerprints.
use o_sfu_benchmarks.Base.{
  ℕ, ◌%◌, Option, none, some, length, saturating_add, wrapping_add, wrapping_mul, rotate_left,
}
use o_sfu_benchmarks.Base.Int.{pos, i64_try_from, u64_try_from_i64}
use o_sfu_benchmarks.Session.{SessionKeys, UserId}

-- `unwrap_or`
abbrev pub unwrap_or {ℓ} : {A : Type ℓ} → Option A → A → A
unwrap_or none d = d
unwrap_or (some a) d = a

-- `u64::try_from(*value).unwrap_or(0)` of an integer, and the length of a string.
unfoldable pub user_key : UserId → ℕ
user_key (UserId.integer value) = unwrap_or (u64_try_from_i64 value) 0
user_key (UserId.string value) = length value

module _ {Session : Type 0} (api : SessionKeys Session) where
  unfoldable pub session_checksum : Session → ℕ
  unfolding rotate_left user_key
  session_checksum s =
      let room = api.room_instance_id s in
      wrapping_add (wrapping_add (wrapping_add room (rotate_left room 7)) (api.media_worker_id s))
        (rotate_left (user_key (api.user_id s)) 11)

  -- Room 17, worker 0, connections from 100 on.
  unfoldable pub benchmark_session_key : ℕ → Session
  benchmark_session_key index =
      api.new 17 0 (saturating_add 100 index)
        (UserId.integer (unwrap_or (i64_try_from index) (pos 0)))

unfoldable pub packet_fingerprint : ℕ → ℕ
unfolding rotate_left
packet_fingerprint index = rotate_left (wrapping_mul index 0x9E37_79B9_7F4A_7C15) (index % 63)
