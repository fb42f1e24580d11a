-- ===== src/Router/Tests.antt =====
-- Ranges split once, and the theorems at them.
use shard_db.Base.{◌≡◌, refl, true, ◌&&◌, none, some, List, [], ◌∷◌, Has, if◌then◌else◌}
use shard_db.Bytes.{Bytes, bytes_compare, codes, bytes_ltb}
use shard_db.Meta.{Range, MetaStore, Command, get_shard, apply_command}
use shard_db.Meta.Tiles.{Tiles, last, more}
use shard_db.Router.{Router, contains, get_shard_id}
use shard_db.Router.Agreement.{get_shard-get_shard_id}
use shard_db.Router.Apply.{splits, apply_command-Tiles, get_shard-split}

abbrev ranges : List Range
ranges =
    record { start_key = none; end_key = some (codes "m"); shard_id = 1 }
    ∷ record { start_key = some (codes "m"); end_key = none; shard_id = 2 }
    ∷ []

abbrev meta : MetaStore
meta = record { ranges = ranges; shards = [] }

abbrev proxy : Router
proxy = record { meta_url = codes "http://meta"; ranges = ranges; shard_addrs = [] }

-- SPLIT_RANGE of the second range, at "t"
abbrev split : Command
split = record {
  op = codes "SPLIT_RANGE";
  range = record { start_key = none; end_key = none; shard_id = 0 };
  shard = record { id = 0; addrs = [] };
  split_key = some (codes "t");
  shard_id1 = 2;
  shard_id2 = 3;
}

ranges-Tiles : Tiles none ranges
unfolding bytes_compare
ranges-Tiles = more none (codes "m") 1 _ tt (last (some (codes "m")) 2)

get_shard-get_shard_id_example : get_shard (codes "q") meta ≡ some (get_shard_id (codes "q") proxy)
get_shard-get_shard_id_example = get_shard-get_shard_id (codes "q") meta proxy ranges-Tiles refl

apply_command-Tiles_example :
    (s : MetaStore) × (apply_command split meta ≡ some s) × Tiles none s.ranges
apply_command-Tiles_example = apply_command-Tiles split (codes "t") meta refl ranges-Tiles

get_shard-split_example :
    (target : Range) × Has target ranges
    × (contains (codes "t") target ≡ true)
    × (s : MetaStore) × (apply_command split meta ≡ some s)
    × ((j : Bytes)
        → get_shard j s ≡ (
            if splits (codes "t") target && contains j target
            then some (if bytes_ltb j (codes "t") then 2 else 3)
            else get_shard j meta))
get_shard-split_example = get_shard-split split (codes "t") meta refl refl ranges-Tiles
