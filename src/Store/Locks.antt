-- ===== src/Store/Locks.antt =====
-- The lock table of internal/storage/memory.go.
use shard_db.Base.{ℕ, ◌≡◌, false, none, some, List, [], ◌∷◌, All, arith}
use shard_db.Base.Result.{ok}
use shard_db.Bytes.{Bytes, bytes_equal, codes}
use shard_db.Bytes.Order.{eq_of_equal}
use shard_db.Dict
use shard_db.Dict.{Dict}
use shard_db.Tree.{BTree}
use shard_db.Store
use shard_db.Store.{MemoryStore, Lock, BatchOp, validate, write_all}
use shard_db.Store.Calls.{
  Call, prepare, commit, abort, one_phase_commit, put, run_gc, ingest, acts_for, call, run,
}

-- The call does not act for this transaction.
abbrev pub IsForeign : Bytes → Call → Type 0
IsForeign txn_id c = elim (acts_for c) [
  | none ↦ Unit
  | some other ↦ bytes_equal txn_id other ≡ false
]

-- A batch that is valid for another transaction does not name the key.
validate_avoids :
    (key : Bytes) (lock : Lock) (ops : List BatchOp) (t : Bytes) (locks : Dict Lock)
    → bytes_equal lock.txn_id t ≡ false
    → Dict.get key locks ≡ some lock
    → validate ops t locks ≡ ok tt
    → All (λ op. bytes_equal op.key key ≡ false) ops
unfolding validate
validate_avoids key lock [] t locks f h v = tt
validate_avoids key lock (op ∷ ops) t locks f h v =
    ground (arith, eq_of_equal op.key key, validate_avoids key lock ops t locks f h)

module _ {B : BTree} (key : Bytes) (lock : Lock) where
  abbrev Holds : MemoryStore B → Type 0
  Holds s = Dict.get key s.locks ≡ some lock

  prepare-Holds :
      (k v t : Bytes) (s : MemoryStore B)
      → bytes_equal lock.txn_id t ≡ false
      → Holds s
      → Holds (Store.prepare k v t s).0
  unfolding Store.prepare
  prepare-Holds k v t s f h =
      ground
        (arith, Dict.get-put k key (record { txn_id = t; value = v }) s.locks, eq_of_equal k key)

  commit-Holds :
      (k t : Bytes) (ts : ℕ) (s : MemoryStore B)
      → bytes_equal lock.txn_id t ≡ false
      → Holds s
      → Holds (Store.commit k t ts s).0
  unfolding Store.commit
  commit-Holds k t ts s f h = ground (arith, Dict.get-remove k key s.locks, eq_of_equal k key)

  abort-Holds :
      (k t : Bytes) (s : MemoryStore B)
      → bytes_equal lock.txn_id t ≡ false
      → Holds s
      → Holds (Store.abort k t s).0
  unfolding Store.abort
  abort-Holds k t s f h = ground (arith, Dict.get-remove k key s.locks, eq_of_equal k key)

  put-Holds :
      (k v : Bytes) (s : MemoryStore B)
      → bytes_equal lock.txn_id (codes "legacy") ≡ false
      → Holds s
      → Holds (Store.put k v s).0
  unfolding Store.put
  put-Holds k v s f h = ground (
    arith,
    prepare-Holds k v (codes "legacy") s f h,
    commit-Holds k (codes "legacy") 1 (Store.prepare k v (codes "legacy") s).0 f,
  )

  write_all-Holds :
      (ops : List BatchOp) (ts : ℕ) (s : MemoryStore B)
      → All (λ op. bytes_equal op.key key ≡ false) ops
      → Holds s
      → Holds (write_all ops ts s)
  unfolding write_all
  write_all-Holds [] ts s a h = h
  write_all-Holds (op ∷ ops) ts s a h =
      write_all-Holds ops ts _ a.1 (ground (arith, Dict.get-remove op.key key s.locks, a.0))

  one_phase_commit-Holds :
      (ops : List BatchOp) (t : Bytes) (ts : ℕ) (s : MemoryStore B)
      → bytes_equal lock.txn_id t ≡ false
      → Holds s
      → Holds (Store.one_phase_commit ops t ts s).0
  unfolding Store.one_phase_commit
  one_phase_commit-Holds ops t ts s f h =
      ground (arith, validate_avoids key lock ops t s.locks f h, write_all-Holds ops ts s)

  ingest_locks : (pairs : Dict Bytes) (s : MemoryStore B) → Holds s → Holds (Store.ingest pairs s)
  unfolding Store.ingest
  ingest_locks [] s h = h
  ingest_locks ((k, v) ∷ rest) s h = ingest_locks rest _ h

  run_gc-Holds : (safe_ts : ℕ) (s : MemoryStore B) → Holds s → Holds (Store.run_gc safe_ts s).0
  unfolding Store.run_gc
  run_gc-Holds safe_ts s h = h

  call-Holds : (c : Call) (s : MemoryStore B) → IsForeign lock.txn_id c → Holds s → Holds (call c s)
  call-Holds (prepare k v t) s f h = prepare-Holds k v t s f h
  call-Holds (commit k t ts) s f h = commit-Holds k t ts s f h
  call-Holds (abort k t) s f h = abort-Holds k t s f h
  call-Holds (one_phase_commit ops t ts) s f h = one_phase_commit-Holds ops t ts s f h
  call-Holds (put k v) s f h = put-Holds k v s f h
  call-Holds (run_gc safe_ts) s f h = run_gc-Holds safe_ts s h
  call-Holds (ingest pairs) s f h = ingest_locks pairs s h

  -- A lock stays, with its owner and its value, through any sequence of calls that act for other
  -- transactions or for none: prepares, commits, aborts, one-phase commits, puts (unless the owner
  -- is called "legacy", as theirs is), collections and ingests.
  pub run-lock :
      (cs : List Call) (s : MemoryStore B)
      → Dict.get key s.locks ≡ some lock
      → All (IsForeign lock.txn_id) cs
      → Dict.get key (run cs s).locks ≡ some lock
  run-lock [] s h f = h
  run-lock (c ∷ cs) s h f = run-lock cs (call c s) (call-Holds c s f.0 h) f.1
