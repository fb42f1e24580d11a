-- ===== src/Cluster.antt =====
-- The coordinator of internal/txn/coordinator.go with the shard nodes of cmd/shard-node/main.go: a
-- request becomes an entry of the shard's log, and the shard's store is what the applier makes of the
-- entries. Raft is the order in which entries arrive.
pub mod Act
pub mod Told
pub mod Groups
pub mod Sent
pub mod Outcome
pub mod Commit
pub mod Abort
pub mod OnePhase
mod Tests
use shard_db.Base.{ℕ, ◌≡◌, Bool, true, false, List, [], ◌∷◌, if◌then◌else◌, ◌<◌, ◌^◌}
use shard_db.Bytes.{Bytes, bytes_equal}
use shard_db.Store.{MemoryStore}
use shard_db.Strings.Split.{Lacks}
use shard_db.Shard.{Op, Req, Parsers, apply_entry}
use shard_db.Shard.Apply.{
  Request, prepare_request, commit_request, abort_request, oneshot_request, entry,
}
use shard_db.Tree.{BTree}
use shard_db.Txn.{WriteIntent, Message, prepare, commit, abort, oneshot}

-- The store of each address.
abbrev pub Cluster : BTree → Type 0
Cluster B = Bytes → MemoryStore B

-- What the nodes use besides: the parsers of the applier, and json.Marshal of a oneshot body.
pub record Wire : Type 0 where
  pub parsers : Parsers
  pub marshal : Req → Bytes

-- the loop of sendOneShot that copies the writes
unfoldable pub oneshot_ops : List WriteIntent → List Op
oneshot_ops [] = []
oneshot_ops (w ∷ ws) = record { key = w.key; val = w.value } ∷ oneshot_ops ws

-- sendPrepare, sendCommit, sendAbort and sendOneShot: the request that reaches the handler of the
-- shard, once the query or the body is decoded, and the address that it is sent to
unfoldable pub request : Wire → Message → Request
request wire (prepare shard key value txn_id) = prepare_request key value txn_id
request wire (commit shard key txn_id ts) = commit_request key txn_id ts
request wire (abort shard key txn_id) = abort_request key txn_id
request wire (oneshot shard intents txn_id ts) =
    oneshot_request (wire.marshal (record { txn_id = txn_id; ts = ts; ops = oneshot_ops intents }))

unfoldable pub shard_of : Message → Bytes
shard_of (prepare shard key value txn_id) = shard
shard_of (commit shard key txn_id ts) = shard
shard_of (abort shard key txn_id) = shard
shard_of (oneshot shard intents txn_id ts) = shard

module _ {B : BTree} (wire : Wire) where
  -- a request that its shard proposes, and that is applied there
  unfoldable pub deliver : Message → Cluster B → Cluster B
  unfolding request shard_of
  deliver m cluster addr =
      if bytes_equal (shard_of m) addr
      then apply_entry wire.parsers (entry (request wire m)) (cluster addr)
      else cluster addr

  unfoldable pub deliver_all : List Message → Cluster B → Cluster B
  deliver_all [] cluster = cluster
  deliver_all (m ∷ ms) cluster = deliver_all ms (deliver m cluster)
