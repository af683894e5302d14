-- ===== src/Session.antt =====
-- `TransportSessionKey` and `UserId` of the crate o-sfu-core, which this repository only calls:
-- the key type is a parameter, with the constructor, the accessors and the derived `Eq` and `Ord`
-- that the fixtures use.
use o_sfu_benchmarks.Base.{ℕ, ◌≤◌, ◌≡◌, List, u64_max}
use o_sfu_benchmarks.Base.Int.{ℤ}
use o_sfu_benchmarks.Base.Map.{Key}

-- The two cases that the fixtures build and match on.
pub data UserId : Type 0 where
  integer : ℤ → UserId
  string : List ℕ → UserId

-- The accessors return what `new` was given.
pub record SessionKeys (TransportSessionKey : Type 0) : Type 0 where
  pub key : Key TransportSessionKey
  pub new : ℕ → ℕ → ℕ → UserId → TransportSessionKey
  pub room_instance_id : TransportSessionKey → ℕ
  pub media_worker_id : TransportSessionKey → ℕ
  pub connection_id : TransportSessionKey → ℕ
  pub user_id : TransportSessionKey → UserId
  pub room_instance_id-new : (r w c : ℕ) (u : UserId) → room_instance_id (new r w c u) ≡ r
  pub media_worker_id-new : (r w c : ℕ) (u : UserId) → media_worker_id (new r w c u) ≡ w
  pub connection_id-new : (r w c : ℕ) (u : UserId) → connection_id (new r w c u) ≡ c
  pub user_id-new : (r w c : ℕ) (u : UserId) → user_id (new r w c u) ≡ u

-- `TransportMediaId` of o-sfu-core, which wraps a `u64`: two ids are equal if their numbers are.
pub record MediaIds (TransportMediaId : Type 0) : Type 0 where
  pub key : Key TransportMediaId
  pub new : ℕ → TransportMediaId
  pub new-injective : (a b : ℕ) → a ≤ u64_max → b ≤ u64_max → new a ≡ new b → a ≡ b
