-- ===== src/Router.antt =====
-- internal/router/router.go: the proxy's copy of the ranges, and the addresses of the shards.
pub mod Agreement
pub mod Split
pub mod Apply
mod Tests
use shard_db.Base.{
  ℕ, Bool, true, false, not, ◌&&◌, Option, none, some, List, [], ◌∷◌, ◌==◌, if◌then◌else◌,
}
use shard_db.Bytes.{Bytes, bytes_ltb, codes}
use shard_db.Meta.{Range}

pub record Router : Type 0 where
  pub meta_url : Bytes
  pub ranges : List Range
  pub shard_addrs : List (ℕ × Bytes)

-- NewRouter
unfoldable pub new_router : Bytes → Router
new_router meta_url = record {
  meta_url = meta_url;
  ranges = record { start_key = none; end_key = none; shard_id = 1 } ∷ [];
  shard_addrs =
      (1, codes "http://localhost:9001")
      ∷ (2, codes "http://localhost:9002")
      ∷ (3, codes "http://localhost:9003")
      ∷ [];
}

-- Refresh: a no-op
unfoldable pub refresh : Router → Router
refresh r = r

-- the two tests of GetShardID's loop body, both passed
unfoldable pub contains : Bytes → Range → Bool
contains key rng =
    let skip_start : Bool = elim rng.start_key [ none ↦ false | some s ↦ bytes_ltb key s ] in
    let skip_end : Bool = elim rng.end_key [ none ↦ false | some e ↦ not (bytes_ltb key e) ] in
    if skip_start then false else if skip_end then false else true

-- the loop of GetShardID
unfoldable pub scan_ranges : Bytes → List Range → ℕ
scan_ranges key [] = 1
scan_ranges key (rng ∷ rest) = if contains key rng then rng.shard_id else scan_ranges key rest

-- GetShardID
unfoldable pub get_shard_id : Bytes → Router → ℕ
unfolding scan_ranges contains
get_shard_id key r = scan_ranges key r.ranges

-- `r.ShardAddrs[id]` with its `ok`
unfoldable pub shard_addr : ℕ → List (ℕ × Bytes) → Option Bytes
shard_addr id [] = none
shard_addr id ((j, addr) ∷ rest) = if j == id then some addr else shard_addr id rest

-- Locate; a missing key reads as the empty string
unfoldable pub locate : Bytes → Router → Bytes
unfolding get_shard_id shard_addr
locate key r = elim (shard_addr (get_shard_id key r) r.shard_addrs) [ none ↦ [] | some addr ↦ addr ]
