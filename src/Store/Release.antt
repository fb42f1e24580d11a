-- ===== src/Store/Release.antt =====
-- How a lock of internal/storage/memory.go is given up and taken by another transaction.
use shard_db.Base.{ℕ, ◌≡◌, false, none, some, List, All, arith}
use shard_db.Base.Result.{ok, err}
use shard_db.Bytes.{Bytes, bytes_equal}
use shard_db.Bytes.Order.{equal_refl}
use shard_db.Dict
use shard_db.Tree.{BTree}
use shard_db.Store.{MemoryStore, Lock, locked_by, prepare, commit, abort}
use shard_db.Store.Calls.{Call, run}
use shard_db.Store.Locks.{IsForeign, run-lock}

module _ {B : BTree} (key : Bytes) (lock : Lock) where
  -- The key is free for the transaction.
  abbrev pub Admits : Bytes → Bytes → MemoryStore B → Type 0
  Admits txn_id value s =
      ((prepare key value txn_id s).1 ≡ ok tt)
      × (Dict.get key (prepare key value txn_id s).0.locks
          ≡ some (record { txn_id = txn_id; value = value }))

  prepare-free :
      (txn_id value : Bytes) (s : MemoryStore B)
      → Dict.get key s.locks ≡ none
      → Admits txn_id value s
  unfolding prepare
  prepare-free txn_id value s free =
      let lock' : Lock = record { txn_id = txn_id; value = value } in
      (ground arith, ground (arith, Dict.get-put key key lock' s.locks, equal_refl key))

  prepare-held :
      (txn_id value : Bytes) (s : MemoryStore B)
      → bytes_equal lock.txn_id txn_id ≡ false
      → Dict.get key s.locks ≡ some lock
      → prepare key value txn_id s ≡ (s, err (locked_by key lock.txn_id))
  unfolding prepare
  prepare-held txn_id value s other held = ground arith

  abort-owner :
      (s : MemoryStore B)
      → Dict.get key s.locks ≡ some lock
      → ((abort key lock.txn_id s).1 ≡ ok tt)
        × (Dict.get key (abort key lock.txn_id s).0.locks ≡ none)
  unfolding abort
  abort-owner s held = (
    ground (arith, equal_refl lock.txn_id),
    ground (arith, equal_refl lock.txn_id, Dict.get-remove key key s.locks, equal_refl key),
  )

  commit-owner :
      (ts : ℕ) (s : MemoryStore B)
      → Dict.get key s.locks ≡ some lock
      → ((commit key lock.txn_id ts s).1 ≡ ok tt)
        × (Dict.get key (commit key lock.txn_id ts s).0.locks ≡ none)
  unfolding commit
  commit-owner ts s held = (
    ground (arith, equal_refl lock.txn_id),
    ground (arith, equal_refl lock.txn_id, Dict.get-remove key key s.locks, equal_refl key),
  )

  -- Whatever other transactions do in between, the owner of a lock can give it up, and then another
  -- transaction can take it: after any sequence of calls that do not act for the owner, a prepare
  -- of the other transaction is refused with the owner's name and changes nothing, an abort and a
  -- commit of the owner succeed at once, and after either of them the prepare of the other
  -- transaction succeeds and holds the lock.
  pub release-prepare :
      (cs : List Call) (s : MemoryStore B) (txn_id value : Bytes) (ts : ℕ)
      → Dict.get key s.locks ≡ some lock
      → All (IsForeign lock.txn_id) cs
      → bytes_equal lock.txn_id txn_id ≡ false
      → let s' = run cs s in
        (prepare key value txn_id s' ≡ (s', err (locked_by key lock.txn_id)))
        × ((abort key lock.txn_id s').1 ≡ ok tt)
        × Admits txn_id value (abort key lock.txn_id s').0
        × ((commit key lock.txn_id ts s').1 ≡ ok tt)
        × Admits txn_id value (commit key lock.txn_id ts s').0
  release-prepare cs s txn_id value ts held foreign other =
      let still = run-lock key lock cs s held foreign in
      let aborted = abort-owner (run cs s) still in
      let committed = commit-owner ts (run cs s) still in
      (
        prepare-held txn_id value (run cs s) other still,
        aborted.0,
        prepare-free txn_id value (abort key lock.txn_id (run cs s)).0 aborted.1,
        committed.0,
        prepare-free txn_id value (commit key lock.txn_id ts (run cs s)).0 committed.1,
      )
