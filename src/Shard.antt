-- ===== src/Shard.antt =====
-- cmd/shard-node/main.go: the applier, which parses the entries that raft has committed and calls the
-- store, and the entries that the handlers propose.
pub mod Entries
pub mod Apply
pub mod Debug
pub mod Execute
pub mod Pairs
pub mod Migrate
pub mod Calls
pub mod Server
pub mod Effects
pub mod Serve
pub mod Replicas
pub mod Counters
mod Tests
mod Served
use shard_db.Base.{
  ℕ, Bool, true, false, Option, none, some, List, [], ◌∷◌, ◌++◌, if◌then◌else◌, drop,
}
use shard_db.Base.Result.{Result, ok, err}
use shard_db.Bytes.{Bytes, codes}
use shard_db.Decimal.{scan_uint64}
use shard_db.Sql.{PlanNode, SqlError}
use shard_db.Sql.Executor.{execute}
use shard_db.Store.{MemoryStore, BatchOp, prepare, commit, abort, one_phase_commit}
use shard_db.Strings.{has_prefix, trim_prefix, split}
use shard_db.Tree.{BTree}

-- The Op and Req of an ONESHOT entry.
pub record Op : Type 0 where
  pub key : Bytes
  pub val : Bytes

pub record Req : Type 0 where
  pub txn_id : Bytes
  pub ts : ℕ
  pub ops : List Op

-- the loop that copies the operations
unfoldable pub storage_ops : List Op → List BatchOp
storage_ops [] = []
storage_ops (op ∷ ops) = record { key = op.key; value = op.val } ∷ storage_ops ops

-- What the applier uses besides: the Req that json.Unmarshal leaves behind (its error is ignored), and
-- sql.ParseToPlan.
pub record Parsers : Type 0 where
  pub unmarshal : Bytes → Req
  pub parse_to_plan : Bytes → Result SqlError PlanNode

module _ {B : BTree} where
  -- the branches of Apply for the parts of an entry; a failure is only logged
  unfoldable pub apply_prepare : List Bytes → MemoryStore B → MemoryStore B
  apply_prepare (op ∷ (key ∷ (value ∷ (txn ∷ [])))) s = (prepare key value txn s).0
  apply_prepare _ s = s

  unfoldable pub apply_commit : List Bytes → MemoryStore B → MemoryStore B
  apply_commit (op ∷ (key ∷ (txn ∷ (ts ∷ [])))) s = (commit key txn (scan_uint64 ts) s).0
  apply_commit _ s = s

  unfoldable pub apply_abort : List Bytes → MemoryStore B → MemoryStore B
  apply_abort (op ∷ (key ∷ (txn ∷ []))) s = (abort key txn s).0
  apply_abort _ s = s

  -- Apply
  unfoldable pub apply_entry : Parsers → Bytes → MemoryStore B → MemoryStore B
  apply_entry p data_ s =
      if has_prefix data_ (codes "PREPARE ")
      then apply_prepare (split data_ b' ') s
      else if has_prefix data_ (codes "COMMIT ")
      then apply_commit (split data_ b' ') s
      else if has_prefix data_ (codes "ABORT ")
      then apply_abort (split data_ b' ') s
      else if has_prefix data_ (codes "ONESHOT ")
      then (let req = p.unmarshal (trim_prefix data_ (codes "ONESHOT ")) in
          (one_phase_commit (storage_ops req.ops) req.txn_id req.ts s).0)
      else if has_prefix data_ (codes "SQL:")
      then elim (p.parse_to_plan (drop 4 data_)) [ err e ↦ s | ok plan ↦ (execute plan s 100).0 ]
      else s

-- The entries that the handlers of /txn/prepare, /txn/commit, /txn/abort, /txn/oneshot and /execute
-- propose.
unfoldable pub prepare_entry : Bytes → Bytes → Bytes → Bytes
prepare_entry key val txn = codes "PREPARE " ++ (key ++ b' ' ∷ (val ++ b' ' ∷ txn))

unfoldable pub commit_entry : Bytes → Bytes → Bytes → Bytes
commit_entry key txn ts = codes "COMMIT " ++ (key ++ b' ' ∷ (txn ++ b' ' ∷ ts))

unfoldable pub abort_entry : Bytes → Bytes → Bytes
abort_entry key txn = codes "ABORT " ++ (key ++ b' ' ∷ txn)

unfoldable pub oneshot_entry : Bytes → Bytes
oneshot_entry data_ = codes "ONESHOT " ++ data_

unfoldable pub sql_entry : Bytes → Bytes
sql_entry sql = codes "SQL:" ++ sql
