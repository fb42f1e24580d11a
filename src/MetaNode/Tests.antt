-- ===== src/MetaNode/Tests.antt =====
-- A log that splits the key space, and the theorem at it.
use shard_db.Base.{◌≡◌, Option, none, some, [], ◌∷◌, arith}
use shard_db.Bytes.{Bytes, codes}
use shard_db.Meta.{Range, MetaStore, Command, new_meta_store}
use shard_db.Meta.Snapshot.{get_snapshot, restore}
use shard_db.Router.Agreement.{IsFound}
use shard_db.Utf8.{sanitize}
use shard_db.MetaNode.{route, apply_all}
use shard_db.MetaNode.Replica.{HasSplitKey, route-restore}

-- An entry is the key at which it splits.
abbrev split_at : Bytes → Option Command
split_at key = some (record {
  op = codes "SPLIT_RANGE";
  range = record { start_key = none; end_key = none; shard_id = 0 };
  shard = record { id = 0; addrs = [] };
  split_key = some key;
  shard_id1 = 1;
  shard_id2 = 2;
})

abbrev empty : MetaStore
empty = record { ranges = []; shards = [] }

splits : (k : Bytes) → HasSplitKey split_at k
splits k cmd e = (k, ground arith)

route-restore_example :
    (s : MetaStore) × (apply_all split_at (codes "m" ∷ []) new_meta_store ≡ some s)
    × (t : MetaStore) × (apply_all split_at (codes "t" ∷ []) s ≡ some t)
    × (r : MetaStore) × (apply_all split_at
          (codes "t" ∷ [])
          (restore (some (get_snapshot s)) empty).0
        ≡ some r)
    × ((key : Bytes)
        → (range : Range) × IsFound key t t.ranges range
          × (route key t ≡ some (record { key = sanitize key; shard_id = range.shard_id }))
          × (route key r ≡ route key t))
route-restore_example =
    route-restore split_at (codes "m" ∷ []) (codes "t" ∷ []) empty (splits (codes "m"), tt)
      (splits (codes "t"), tt)
