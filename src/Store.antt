-- ===== src/Store.antt =====
-- internal/storage/memory.go: the store of one shard, a tree of versions and a table of locks.
-- The mutex makes each method one step, so a method is a function of the store.
pub mod Items
pub mod Seek
pub mod Read
pub mod Collected
pub mod Gc
pub mod Calls
pub mod Locks
pub mod Release
pub mod Shows
pub mod Snapshot
pub mod Versions
pub mod Backup
pub mod Abstract
mod Tests
pub mod Hidden
use shard_db.Base.{
  ℕ, ◌+◌, ◌^◌, ◌-◌, Bool, true, false, not, ◌&&◌, Option, none, some, List, [], ◌∷◌, ◌++◌, leb,
  if◌then◌else◌,
}
use shard_db.Base.Result.{Result, ok, err}
use shard_db.Bytes.{Bytes, bytes_equal, bytes_ltb, codes}
use shard_db.Dict
use shard_db.Dict.{Dict}
use shard_db.Mvcc.{encode_key, decode_key, max_uint64}
use shard_db.Tree.{BTree, Item}

pub record Lock : Type 0 where
  pub txn_id : Bytes
  pub value : Bytes

-- The errors that the methods build by fmt.Errorf, with what they print.
pub data StoreError : Type 0 where
  locked_by : Bytes → Bytes → StoreError
  no_lock : Bytes → StoreError
  cannot_commit : Bytes → Bytes → Bytes → StoreError
  cannot_abort : Bytes → Bytes → Bytes → StoreError

pub record BatchOp : Type 0 where
  pub key : Bytes
  pub value : Bytes

pub record MemoryStore (B : BTree) : Type 0 where
  pub tree : B.Tree
  pub locks : Dict Lock

-- the local state of RunGC
pub record TraversalState : Type 0 where
  pub current_user_key : Bytes
  pub found_snapshot : Bool
  pub keys_to_delete : List Item

abbrev pub Outcome : BTree → Type 0
Outcome B = MemoryStore B × Result StoreError (Unit {0})

-- the first loop of OnePhaseCommit
unfoldable pub validate : List BatchOp → Bytes → Dict Lock → Result StoreError (Unit {0})
validate [] txn_id locks = ok tt
validate (op ∷ ops) txn_id locks =
    let rest = validate ops txn_id locks in
    elim (Dict.get op.key locks) [
      | none ↦ rest
      | some lock ↦
          if bytes_equal lock.txn_id txn_id then rest else err (locked_by op.key lock.txn_id)
    ]

-- the callback of mvccGetLocked; it always stops the ascent
unfoldable pub visit_version : Bytes → Item → Option Bytes → Option Bytes × Bool
visit_version key it found_val =
    if not (bytes_equal (decode_key it.key).0 key)
    then (found_val, false)
    else (some it.value, false)

-- the callback of RunGC
unfoldable pub gc_visit : ℕ → Item → TraversalState → TraversalState × Bool
gc_visit safe_ts it state =
    let (user_key, ts) = decode_key it.key in
    let seen : TraversalState =
      if not (bytes_equal user_key state.current_user_key)
      then record state { current_user_key = user_key; found_snapshot = false }
      else state in
    if leb ts safe_ts
    then (if not seen.found_snapshot
        then (record seen { found_snapshot = true }, true)
        else (record seen { keys_to_delete = seen.keys_to_delete ++ it ∷ [] }, true))
    else (seen, true)

-- the callback that Scan hands to the tree: it stops at the end, and calls `iter` else
unfoldable pub scan_visit :
    {S : Type 0} → Option Bytes → (Bytes → Bytes → S → S × Bool) → Item → S → S × Bool
scan_visit end iter it state =
    let k = (decode_key it.key).0 in
    elim end [
      | none ↦ iter it.key it.value state
      | some e ↦ if not (bytes_ltb k e) then (state, false) else iter it.key it.value state
    ]

-- the loop that deletes what was collected
unfoldable pub delete_all : (B : BTree) → List Item → B.Tree → ℕ → B.Tree × ℕ
delete_all B [] tree deleted_count = (tree, deleted_count)
delete_all B (k ∷ ks) tree deleted_count = delete_all B ks (B.delete tree k) (deleted_count + 1)

module _ {B : BTree} where
  -- Prepare
  unfoldable pub prepare : Bytes → Bytes → Bytes → MemoryStore B → Outcome B
  prepare key value txn_id s =
      let acquired : Outcome B = (
        record s { locks = Dict.put key (record { txn_id = txn_id; value = value }) s.locks },
        ok tt,
      ) in
      elim (Dict.get key s.locks) [
        | some lock ↦
            if bytes_equal lock.txn_id txn_id
            then acquired
            else (s, err (locked_by key lock.txn_id))
        | none ↦ acquired
      ]

  -- Commit
  unfoldable pub commit : Bytes → Bytes → ℕ → MemoryStore B → Outcome B
  commit key txn_id commit_ts s = elim (Dict.get key s.locks) [
    | none ↦ (s, err (no_lock key))
    | some lock ↦
        if bytes_equal lock.txn_id txn_id
        then (
          record {
            tree =
                B.replace_or_insert s.tree
                  (record { key = encode_key key commit_ts; value = lock.value });
            locks = Dict.remove key s.locks;
          },
          ok tt,
        )
        else (s, err (cannot_commit key lock.txn_id txn_id))
  ]

  -- Abort
  unfoldable pub abort : Bytes → Bytes → MemoryStore B → Outcome B
  abort key txn_id s = elim (Dict.get key s.locks) [
    | none ↦ (s, ok tt)
    | some lock ↦
        if bytes_equal lock.txn_id txn_id
        then (record s { locks = Dict.remove key s.locks }, ok tt)
        else (s, err (cannot_abort key lock.txn_id txn_id))
  ]

  -- the second loop of OnePhaseCommit
  unfoldable pub write_all : List BatchOp → ℕ → MemoryStore B → MemoryStore B
  write_all [] commit_ts s = s
  write_all (op ∷ ops) commit_ts s = write_all ops commit_ts (record {
    tree =
        B.replace_or_insert s.tree (record { key = encode_key op.key commit_ts; value = op.value });
    locks = Dict.remove op.key s.locks;
  })

  -- OnePhaseCommit
  unfoldable pub one_phase_commit : List BatchOp → Bytes → ℕ → MemoryStore B → Outcome B
  one_phase_commit ops txn_id commit_ts s = elim (validate ops txn_id s.locks) [
    | ok _ ↦ (write_all ops commit_ts s, ok tt)
    | err e ↦ (s, err e)
  ]

  -- mvccGetLocked; `none` is `exists == false`
  unfoldable pub mvcc_get_locked : Bytes → ℕ → MemoryStore B → Option Bytes
  mvcc_get_locked key read_ts s =
      B.ascend_greater_or_equal (Option Bytes) (record { key = encode_key key read_ts; value = [] })
        (visit_version key) s.tree none

  -- GetTxn; a nil slice with a nil error is `ok none`
  unfoldable pub get_txn : Bytes → ℕ → MemoryStore B → Result StoreError (Option Bytes)
  get_txn key read_ts s = elim (Dict.get key s.locks) [
    | some lock ↦ err (locked_by key lock.txn_id)
    | none ↦ ok (mvcc_get_locked key read_ts s)
  ]

  -- Put
  unfoldable pub put : Bytes → Bytes → MemoryStore B → Outcome B
  put key value s =
      let (s', prepared) = prepare key value (codes "legacy") s in
      elim prepared [ err e ↦ (s', err e) | ok _ ↦ commit key (codes "legacy") 1 s' ]

  -- Get
  unfoldable pub get : Bytes → MemoryStore B → Result StoreError (Option Bytes)
  get key s = get_txn key max_uint64 s

  -- RunGC, with the count that it returns
  unfoldable pub run_gc : ℕ → MemoryStore B → MemoryStore B × ℕ
  run_gc safe_ts s =
      let state =
        B.ascend TraversalState (gc_visit safe_ts) s.tree
          (record { current_user_key = []; found_snapshot = false; keys_to_delete = [] }) in
      let (tree, deleted_count) = delete_all B state.keys_to_delete s.tree 0 in
      (record s { tree = tree }, deleted_count)

  -- Scan; a nil end is `none`. It returns no error.
  unfoldable pub scan :
      (S : Type 0) → Bytes → Option Bytes → (Bytes → Bytes → S → S × Bool) → MemoryStore B → S → S
  scan S start end iter s state =
      B.ascend_greater_or_equal S (record { key = encode_key start max_uint64; value = [] })
        (scan_visit end iter) s.tree state

  -- ScanRange
  unfoldable pub scan_range : Bytes → Option Bytes → MemoryStore B → Dict Bytes
  scan_range start end s =
      scan (Dict Bytes) start end (λ k v found. (Dict.put k v found, true)) s []

  -- Ingest; the pairs in the order of the `range`
  unfoldable pub ingest : Dict Bytes → MemoryStore B → MemoryStore B
  ingest [] s = s
  ingest ((k, v) ∷ rest) s =
      ingest rest (record s { tree = B.replace_or_insert s.tree (record { key = k; value = v }) })

-- NewMemoryStore
unfoldable pub new_memory_store : (B : BTree) → MemoryStore B
new_memory_store B = record { tree = B.new; locks = [] }
