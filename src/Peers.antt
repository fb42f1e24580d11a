-- ===== src/Peers.antt =====
-- The flag "cluster" of cmd/shard-node/main.go and of cmd/meta-node/main.go, and the peers that both
-- programs read from it: "1=http://a,2=http://b". The ids are scanned by %d.
pub mod Flag
mod Tests
use shard_db.Base.{ℕ, Option, none, some, List, [], ◌∷◌, ◌++◌, ◌==◌, if◌then◌else◌}
use shard_db.Bytes.{Bytes}
use shard_db.Decimal.{scan_uint64}
use shard_db.Strings.{split}

-- map[uint64]string as an association list
abbrev pub PeerMap : Type 0
PeerMap = List (ℕ × Bytes)

unfoldable pub get_peer : ℕ → PeerMap → Option Bytes
get_peer id [] = none
get_peer id ((j, url) ∷ rest) = if j == id then some url else get_peer id rest

unfoldable pub put_peer : ℕ → Bytes → PeerMap → PeerMap
put_peer id url [] = (id, url) ∷ []
put_peer id url ((j, other) ∷ rest) =
    if j == id then (id, url) ∷ rest else (j, other) ∷ put_peer id url rest

-- The map of the peers, and the list of their ids.
pub record Peers : Type 0 where
  pub urls : PeerMap
  pub ids : List ℕ

unfoldable pub add_pair : Bytes → Bytes → Peers → Peers
unfolding put_peer
add_pair id url p =
    let pid = scan_uint64 id in record { urls = put_peer pid url p.urls; ids = p.ids ++ pid ∷ [] }

-- the loop of the shard node; `none` is a panic, where a part has no "="
unfoldable pub shard_parts : List Bytes → Peers → Option Peers
shard_parts [] p = some p
shard_parts (part ∷ parts) p = elim (split part b'=') [
  | id ∷ (url ∷ more) ↦ shard_parts parts (add_pair id url p)
  | _ ↦ none
]

-- the peers of the shard node; no flag, no peers
unfoldable pub shard_peers : Bytes → Option Peers
shard_peers [] = some (record { urls = []; ids = [] })
shard_peers (c ∷ cs) = shard_parts (split (c ∷ cs) b',') (record { urls = []; ids = [] })

-- the loop of the meta node, with AddPeer for each pair; other parts are skipped
unfoldable pub meta_parts : List Bytes → Peers → Peers
meta_parts [] p = p
meta_parts (part ∷ parts) p = elim (split part b'=') [
  | id ∷ (url ∷ []) ↦ meta_parts parts (add_pair id url p)
  | _ ↦ meta_parts parts p
]

unfoldable pub meta_peers : Bytes → Peers
meta_peers cluster = meta_parts (split cluster b',') (record { urls = []; ids = [] })
