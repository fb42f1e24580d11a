-- ===== src/Store/Calls.antt =====
-- Sequences of the calls that change a store of internal/storage/memory.go.
use shard_db.Base.{ℕ, Option, none, some, List, [], ◌∷◌}
use shard_db.Bytes.{Bytes, codes}
use shard_db.Dict.{Dict}
use shard_db.Tree.{BTree}
use shard_db.Store
use shard_db.Store.{MemoryStore, BatchOp}

-- A call of a method that changes the store, with its arguments.
pub data Call : Type 0 where
  prepare : Bytes → Bytes → Bytes → Call
  commit : Bytes → Bytes → ℕ → Call
  abort : Bytes → Bytes → Call
  one_phase_commit : List BatchOp → Bytes → ℕ → Call
  put : Bytes → Bytes → Call
  run_gc : ℕ → Call
  ingest : Dict Bytes → Call

-- The transaction that a call acts for, if it acts for one.
abbrev pub acts_for : Call → Option Bytes
acts_for (prepare key value txn_id) = some txn_id
acts_for (commit key txn_id commit_ts) = some txn_id
acts_for (abort key txn_id) = some txn_id
acts_for (one_phase_commit ops txn_id commit_ts) = some txn_id
acts_for (put key value) = some (codes "legacy")
acts_for (run_gc safe_ts) = none
acts_for (ingest pairs) = none

module _ {B : BTree} where
  abbrev pub call : Call → MemoryStore B → MemoryStore B
  call (prepare key value txn_id) s = (Store.prepare key value txn_id s).0
  call (commit key txn_id commit_ts) s = (Store.commit key txn_id commit_ts s).0
  call (abort key txn_id) s = (Store.abort key txn_id s).0
  call (one_phase_commit ops txn_id commit_ts) s = (Store.one_phase_commit ops txn_id commit_ts s).0
  call (put key value) s = (Store.put key value s).0
  call (run_gc safe_ts) s = (Store.run_gc safe_ts s).0
  call (ingest pairs) s = Store.ingest pairs s

  abbrev pub run : List Call → MemoryStore B → MemoryStore B
  run [] s = s
  run (c ∷ cs) s = run cs (call c s)
