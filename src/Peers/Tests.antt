-- ===== src/Peers/Tests.antt =====
-- A flag with two peers, read by both programs, and one that only the meta node reads.
use shard_db.Base.{◌≡◌, refl, none, some, [], ◌∷◌}
use shard_db.Bytes.{codes}
use shard_db.Decimal.{scan_uint64}
use shard_db.Peers.{shard_peers, meta_peers, shard_parts, meta_parts, add_pair, put_peer}
use shard_db.Strings.{split}

reads :
    shard_peers (codes "1=http://a,2=http://b") ≡ some (meta_peers (codes "1=http://a,2=http://b"))
unfolding shard_peers meta_peers shard_parts meta_parts split
reads = refl

-- The shard node panics on a part without an equals sign.
panics : shard_peers (codes "1=http://a,2") ≡ none
unfolding shard_peers shard_parts split
panics = refl

skips :
    meta_peers (codes "1=http://a,2") ≡ record { urls = (1, codes "http://a") ∷ []; ids = 1 ∷ [] }
unfolding meta_peers meta_parts split add_pair put_peer scan_uint64
skips = refl
