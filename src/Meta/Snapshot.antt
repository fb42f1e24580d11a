-- ===== src/Meta/Snapshot.antt =====
-- GetSnapshot and Restore of internal/meta/store.go. The JSON text is the object that it writes: a
-- []byte is base64 or null, which keeps its bytes and whether it is nil, and the addresses are
-- strings, which keep what is UTF-8 of them.
use shard_db.Base.{ℕ, Option, none, some, List, [], ◌∷◌}
use shard_db.Base.Result.{Result, ok, err}
use shard_db.Bytes.{Bytes, codes}
use shard_db.Meta.{Range, ShardConfig, MetaStore}
use shard_db.Utf8.{sanitize}

-- The members of the object.
pub record State : Type 0 where
  pub ranges : List Range
  pub shards : List (ℕ × ShardConfig)

unfoldable pub encode_addrs : List Bytes → List Bytes
encode_addrs [] = []
encode_addrs (a ∷ addrs) = sanitize a ∷ encode_addrs addrs

unfoldable pub encode_shards : List (ℕ × ShardConfig) → List (ℕ × ShardConfig)
unfolding encode_addrs
encode_shards [] = []
encode_shards ((id, shard) ∷ rest) =
    (id, record shard { addrs = encode_addrs shard.addrs }) ∷ encode_shards rest

-- GetSnapshot
unfoldable pub get_snapshot : MetaStore → State
unfolding encode_shards
get_snapshot s = record { ranges = s.ranges; shards = encode_shards s.shards }

-- Restore; `none` is a text that is no such object.
unfoldable pub restore : Option State → MetaStore → MetaStore × Result Bytes (Unit {0})
restore none s = (s, err (codes "unmarshal"))
restore (some st) s = (record { ranges = st.ranges; shards = st.shards }, ok tt)
