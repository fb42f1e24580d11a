-- ===== src/Store/Snapshot.antt =====
-- Reads at a timestamp against later writes, for all calls of internal/storage/memory.go.
use mathlib.Core.Path.{subst}
use shard_db.Base.{
  ℕ, ◌^◌, ◌≤◌, ◌<◌, ◌≡◌, sym, ◌∙◌, Option, List, [], ◌∷◌, All, arith, inl, inr, Bool-cases,
  Option-cases,
}
use shard_db.Base.Result.{ok, err}
use shard_db.Bytes.{Bytes, bytes_equal, codes}
use shard_db.Dict
use shard_db.Dict.{Dict}
use shard_db.Tree.{BTree, Item, insert_item}
use shard_db.Store
use shard_db.Store.{MemoryStore, Lock, BatchOp, validate, write_all, mvcc_get_locked}
use shard_db.Store.Items.{IsApart, IsMvcc}
use shard_db.Store.Seek.{version, mvcc_get_locked-latest}
use shard_db.Store.Collected.{run_gc_lem}
use shard_db.Store.Calls.{
  Call, prepare, commit, abort, one_phase_commit, put, run_gc, ingest, call, run,
}
use shard_db.Store.Shows.{IsLater, WritesLater, Shows, insert_item-Shows, version-Shows, kept-Shows}

module _ (key : Bytes) (ts : ℕ) (o : Option Bytes) (B : BTree) where
  abbrev ShowsIn : MemoryStore B → Type 0
  ShowsIn s = Shows key ts o (B.items s.tree)

  replace-Shows :
      (t : B.Tree) (i : Item)
      → Shows key ts o (insert_item i (B.items t))
      → Shows key ts o (B.items (B.replace_or_insert t i))
  replace-Shows t i h = subst (Shows key ts o) (sym (B.items-replace_or_insert t i)) h

  written-Shows :
      (s : MemoryStore B) (k value : Bytes) (commit_ts : ℕ)
      → IsLater key ts k commit_ts
      → ShowsIn s
      → Shows key ts o (B.items (B.replace_or_insert s.tree (version k commit_ts value)))
  written-Shows s k value commit_ts later h =
      replace-Shows s.tree (version k commit_ts value)
        (version-Shows key ts o k commit_ts value (B.items s.tree) later h)

  prepare-tree : (k v t : Bytes) (s : MemoryStore B) → (Store.prepare k v t s).0.tree ≡ s.tree
  unfolding Store.prepare
  prepare-tree k v t s = ground arith

  abort-tree : (k t : Bytes) (s : MemoryStore B) → (Store.abort k t s).0.tree ≡ s.tree
  unfolding Store.abort
  abort-tree k t s = ground arith

  prepare-Shows :
      (k v t : Bytes) (s : MemoryStore B) → ShowsIn s → ShowsIn (Store.prepare k v t s).0
  prepare-Shows k v t s h =
      subst (λ tree. Shows key ts o (B.items tree)) (sym (prepare-tree k v t s)) h

  abort-Shows : (k t : Bytes) (s : MemoryStore B) → ShowsIn s → ShowsIn (Store.abort k t s).0
  abort-Shows k t s h = subst (λ tree. Shows key ts o (B.items tree)) (sym (abort-tree k t s)) h

  commit-Shows :
      (k txn_id : Bytes) (commit_ts : ℕ) (s : MemoryStore B)
      → IsLater key ts k commit_ts
      → ShowsIn s
      → ShowsIn (Store.commit k txn_id commit_ts s).0
  unfolding Store.commit
  commit-Shows k txn_id commit_ts s later h = elim (Option-cases (Dict.get k s.locks)) [
    | inl free ↦ rw (free, Store.commit) h
    | inr (lock, held) ↦ elim (Bool-cases (bytes_equal lock.txn_id txn_id)) [
      | inl own ↦ rw (held, Store.commit, own) (written-Shows s k lock.value commit_ts later h)
      | inr foreign ↦ rw (held, Store.commit, foreign) h
    ]
  ]

  write_all-Shows :
      (ops : List BatchOp) (commit_ts : ℕ) (s : MemoryStore B)
      → All (λ op. IsLater key ts op.key commit_ts) ops
      → ShowsIn s
      → ShowsIn (write_all ops commit_ts s)
  unfolding write_all
  write_all-Shows [] commit_ts s later h = h
  write_all-Shows (op ∷ ops) commit_ts s later h =
      write_all-Shows ops commit_ts _ later.1 (written-Shows s op.key op.value commit_ts later.0 h)

  one_phase_commit-Shows :
      (ops : List BatchOp) (txn_id : Bytes) (commit_ts : ℕ) (s : MemoryStore B)
      → All (λ op. IsLater key ts op.key commit_ts) ops
      → ShowsIn s
      → ShowsIn (Store.one_phase_commit ops txn_id commit_ts s).0
  unfolding Store.one_phase_commit
  one_phase_commit-Shows ops txn_id commit_ts s later h =
      elim (validate ops txn_id s.locks)
        as (λ r. Shows key ts o (
          B.items
            (let after : Store.Outcome B = elim r [
              | ok _ ↦ (write_all ops commit_ts s, ok tt)
              | err e ↦ (s, err e)
            ] in
              after).0.tree)) [ ok _ ↦ write_all-Shows ops commit_ts s later h | err e ↦ h ]

  put-Shows :
      (k v : Bytes) (s : MemoryStore B)
      → IsLater key ts k 1
      → ShowsIn s
      → ShowsIn (Store.put k v s).0
  unfolding Store.put
  put-Shows k v s later h =
      let prepared = Store.prepare k v (codes "legacy") s in
      elim prepared.1
        as (λ r. Shows key ts o (
          B.items
            (let after : Store.Outcome B = elim r [
              | err e ↦ (prepared.0, err e)
              | ok _ ↦ Store.commit k (codes "legacy") 1 prepared.0
            ] in
              after).0.tree)) [
                | ok _ ↦
                    commit-Shows k (codes "legacy") 1 prepared.0 later
                      (prepare-Shows k v (codes "legacy") s h)
                | err e ↦ prepare-Shows k v (codes "legacy") s h
              ]

  run_gc-Shows :
      (safe_ts : ℕ) (s : MemoryStore B)
      → safe_ts ≤ ts
      → ts < 2 ^ 64
      → ShowsIn s
      → ShowsIn (Store.run_gc safe_ts s).0
  run_gc-Shows safe_ts s safe fits h =
      subst (Shows key ts o) (sym (run_gc_lem safe_ts s h.mvcc.sorted).0)
        (kept-Shows key ts o safe_ts (B.items s.tree) safe fits h)

  ingest-Shows :
      (pairs : Dict Bytes) (s : MemoryStore B)
      → WritesLater key ts (ingest pairs)
      → ShowsIn s
      → ShowsIn (Store.ingest pairs s)
  unfolding Store.ingest
  ingest-Shows [] s later h = h
  ingest-Shows ((k, v) ∷ rest) s later h =
      let i : Item = record { key = k; value = v } in
      ingest-Shows rest _ later.1 (
        replace-Shows s.tree i
          (insert_item-Shows key ts o i (B.items s.tree) later.0.0 later.0.1.2 later.0.1.0 h))

  call-Shows :
      (c : Call) (s : MemoryStore B)
      → ts < 2 ^ 64
      → WritesLater key ts c
      → ShowsIn s
      → ShowsIn (call c s)
  call-Shows (prepare k v t) s fits later h = prepare-Shows k v t s h
  call-Shows (commit k t commit_ts) s fits later h = commit-Shows k t commit_ts s later h
  call-Shows (abort k t) s fits later h = abort-Shows k t s h
  call-Shows (one_phase_commit ops t commit_ts) s fits later h =
      one_phase_commit-Shows ops t commit_ts s later h
  call-Shows (put k v) s fits later h = put-Shows k v s later h
  call-Shows (run_gc safe_ts) s fits later h = run_gc-Shows safe_ts s later fits h
  call-Shows (ingest pairs) s fits later h = ingest-Shows pairs s later h

  run-Shows :
      (cs : List Call) (s : MemoryStore B)
      → ts < 2 ^ 64
      → All (WritesLater key ts) cs
      → ShowsIn s
      → ShowsIn (run cs s)
  run-Shows [] s fits later h = h
  run-Shows (c ∷ cs) s fits later h =
      run-Shows cs (call c s) fits later.1 (call-Shows c s fits later.0 h)

-- A read at a timestamp is repeatable: in a well-formed store where no other stored key is a proper
-- prefix or a proper extension of the key, mvccGetLocked finds the same value at a timestamp before
-- and after any sequence of calls that commit, put or ingest only versions later than the
-- timestamp, of this key or of keys that are no proper prefix or extension of it, and that collect
-- only at or below it.
pub mvcc_get_locked-run :
    {B : BTree} (key : Bytes) (ts : ℕ) (cs : List Call) (s : MemoryStore B)
    → IsMvcc (B.items s.tree)
    → All (IsApart key) (B.items s.tree)
    → ts < 2 ^ 64
    → All (WritesLater key ts) cs
    → mvcc_get_locked key ts (run cs s) ≡ mvcc_get_locked key ts s
mvcc_get_locked-run {B} key ts cs s w apart fits later =
    let before = mvcc_get_locked-latest s key ts w apart fits in
    let after =
      run-Shows key ts (mvcc_get_locked key ts s) B cs s fits later
        (record { mvcc = w; apart = apart; shown = sym before }) in
    mvcc_get_locked-latest (run cs s) key ts after.mvcc after.apart fits ∙ after.shown
