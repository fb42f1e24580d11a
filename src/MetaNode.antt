-- ===== src/MetaNode.antt =====
-- cmd/meta-node/main.go: the handler of /route, on the store that raft's entries and snapshots make.
pub mod Replica
pub mod Server
pub mod Serve
mod Tests
mod Served
use shard_db.Base.{ℕ, Option, none, some, List, [], ◌∷◌}
use shard_db.Bytes.{Bytes}
use shard_db.Meta.{MetaStore, Checked, get_shard, apply, Command}
use shard_db.Utf8.{sanitize}

-- The object of the response: the key as a JSON string, and the shard.
pub record RouteResponse : Type 0 where
  pub key : Bytes
  pub shard_id : ℕ

-- the handler of /route; `none` is a panic
unfoldable pub route : Bytes → MetaStore → Checked RouteResponse
route key s = elim (get_shard key s) [
  | none ↦ none
  | some shard_id ↦ some (record { key = sanitize key; shard_id = shard_id })
]

-- The entries of a log, applied one after the other.
abbrev pub apply_all : (Bytes → Option Command) → List Bytes → MetaStore → Checked MetaStore
apply_all unmarshal [] s = some s
apply_all unmarshal (entry ∷ entries) s = elim (apply unmarshal entry s) [
  | none ↦ none
  | some s' ↦ apply_all unmarshal entries s'
]
