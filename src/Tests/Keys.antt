-- ===== src/Tests/Keys.antt =====
-- A session key type that meets the interface of `Session`: the four parts that `new` takes.
use o_sfu_benchmarks.Base.{ℕ, refl, ltb, ℕ_discrete}
use o_sfu_benchmarks.Base.Int.{pos}
use o_sfu_benchmarks.Session.{UserId, SessionKeys, MediaIds}

pub record PlainKey : Type 0 where
  pub room : ℕ
  pub worker : ℕ
  pub connection : ℕ
  pub user : UserId

unfoldable pub PlainKey-discrete : Discrete PlainKey
PlainKey-discrete = hlevel ℕ_discrete

abbrev pub plain_keys : SessionKeys PlainKey
plain_keys = record {
  key = record { dec = PlainKey-discrete; before = λ a b. ltb a.connection b.connection };
  new = λ r w c u. record { room = r; worker = w; connection = c; user = u };
  room_instance_id = λ k. k.room;
  media_worker_id = λ k. k.worker;
  connection_id = λ k. k.connection;
  user_id = λ k. k.user;
  room_instance_id-new = λ r w c u. refl;
  media_worker_id-new = λ r w c u. refl;
  connection_id-new = λ r w c u. refl;
  user_id-new = λ r w c u. refl;
}

abbrev pub key_at : ℕ → PlainKey
key_at n = record { room = 1; worker = 0; connection = n; user = UserId.integer (pos n) }

-- A media id type that meets the interface: the number itself.
abbrev pub plain_media : MediaIds ℕ
plain_media = record {
  key = record { dec = ℕ_discrete; before = ltb };
  new = λ n. n;
  new-injective = λ a b u v e. e;
}
