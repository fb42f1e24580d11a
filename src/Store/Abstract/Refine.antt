-- ===== src/Store/Abstract/Refine.antt =====
-- Each call of internal/storage/memory.go is a step of the contract.
use mathlib.Core.Path.{subst, fun_ext}
use shard_db.Base.{
  ℕ, ◌^◌, ◌<◌, ◌≡◌, refl, sym, ap, ◌∙◌, Option, none, some, List, [], ◌∷◌, All, arith, inl, inr,
  Option-cases,
}
use shard_db.Bytes.{Bytes, bytes_equal, codes}
use shard_db.Bytes.Order.{equal_refl}
use shard_db.Dict
use shard_db.Dict.{Dict}
use shard_db.Tree.{BTree, Item}
use shard_db.Store
use shard_db.Store.{MemoryStore, Lock, BatchOp, validate, write_all, locked_by}
use shard_db.Store.Items.{IsVersion, IsMvcc}
use shard_db.Store.Seek.{insert_item-IsMvcc}
use shard_db.Store.Gc.{kept-IsMvcc}
use shard_db.Store.Collected.{run_gc_lem}
use shard_db.Store.Calls.{
  Call, prepare, commit, abort, one_phase_commit, put, run_gc, ingest, call, run,
}
use shard_db.Store.Abstract.{
  write, set_lock, allows, allows_all, write_batch, write_pairs, settle, release, Steps, done, step,
}
use shard_db.Store.Abstract.View.{view, view-insert_item, held-put, held-remove, Abstract-path}
use shard_db.Store.Abstract.Drop.{run_gc-Collected}
use shard_db.Store.Abstract.Written.{
  IsMvccStore, written, view-written, written-IsMvcc, Refined, Refined_if, write_all-Refined,
  validate-allows,
}

-- The timestamps are uint64, and what is ingested are versions.
abbrev pub InRange : Call → Type 0
InRange (commit key txn_id ts) = ts < 2 ^ 64
InRange (one_phase_commit ops txn_id ts) = ts < 2 ^ 64
InRange (ingest pairs) =
    All (λ (p : Bytes × Bytes). IsVersion (record { key = p.0; value = p.1 })) pairs
InRange _ = Unit

module _ {B : BTree} where
  prepare-Refined :
      (key value txn_id : Bytes) (s : MemoryStore B)
      → IsMvccStore s
      → Refined (prepare key value txn_id) s
  unfolding Store.prepare
  prepare-Refined key value txn_id s w =
      let lock : Lock = record { txn_id = txn_id; value = value } in
      Refined_if s (Store.prepare key value txn_id s).0
        (record s { locks = Dict.put key lock s.locks }) (set_lock key (some lock) (view s))
        (allows (Dict.get key s.locks) txn_id) (ground arith) w w
        (Abstract-path refl (held-put key lock s.locks))

  commit-Refined :
      (key txn_id : Bytes) (ts : ℕ) (s : MemoryStore B)
      → ts < 2 ^ 64
      → IsMvccStore s
      → Refined (commit key txn_id ts) s
  unfolding Store.commit written
  commit-Refined key txn_id ts s h w = elim (Option-cases (Dict.get key s.locks)) [
    | inl free ↦
        let stays : (Store.commit key txn_id ts s).0 ≡ s = ground arith in
        (
          subst IsMvccStore (sym stays) w,
          ap view stays ∙ ap (λ (l : Option Lock). settle key txn_id ts l (view s)) (sym free),
        )
    | inr (lock, held) ↦
        let (kept, seen) =
          Refined_if s (Store.commit key txn_id ts s).0 (written key ts lock.value s)
            (set_lock key none (write key ts lock.value (view s))) (bytes_equal lock.txn_id txn_id)
            (ground arith) w (written-IsMvcc key ts lock.value s h w)
            (view-written key ts lock.value s h w) in
        (kept, seen ∙ ap (λ (l : Option Lock). settle key txn_id ts l (view s)) (sym held))
  ]

  abort-Refined :
      (key txn_id : Bytes) (s : MemoryStore B) → IsMvccStore s → Refined (abort key txn_id) s
  unfolding Store.abort
  abort-Refined key txn_id s w = elim (Option-cases (Dict.get key s.locks)) [
    | inl free ↦
        let stays : (Store.abort key txn_id s).0 ≡ s = ground arith in
        (
          subst IsMvccStore (sym stays) w,
          ap view stays ∙ ap (λ (l : Option Lock). release key txn_id l (view s)) (sym free),
        )
    | inr (lock, held) ↦
        let (kept, seen) =
          Refined_if s (Store.abort key txn_id s).0 (record s { locks = Dict.remove key s.locks })
            (set_lock key none (view s)) (bytes_equal lock.txn_id txn_id) (ground arith) w w
            (Abstract-path refl (held-remove key s.locks)) in
        (kept, seen ∙ ap (λ (l : Option Lock). release key txn_id l (view s)) (sym held))
  ]

  -- Put is a prepare and a commit of one transaction.
  put-Refined : (key value : Bytes) (s : MemoryStore B) → IsMvccStore s → Refined (put key value) s
  unfolding Store.put Store.prepare Store.commit written
  put-Refined key value s w =
      let lock : Lock = record { txn_id = codes "legacy"; value = value } in
      let locked : MemoryStore B = record s { locks = Dict.put key lock s.locks } in
      Refined_if s (Store.put key value s).0 (written key 1 value locked)
        (set_lock key none (write key 1 value (view s)))
        (allows (Dict.get key s.locks) (codes "legacy"))
        (ground
          (arith, Dict.get-put key key lock s.locks, equal_refl key, equal_refl (codes "legacy")))
        w (written-IsMvcc key 1 value locked (omega arith) w)
        (view-written key 1 value locked (omega arith) w
          ∙ Abstract-path refl (fun_ext (λ j. ground (arith, Dict.get-put key j lock s.locks))))

  one_phase_commit-Refined :
      (ops : List BatchOp) (txn_id : Bytes) (ts : ℕ) (s : MemoryStore B)
      → ts < 2 ^ 64
      → IsMvccStore s
      → Refined (one_phase_commit ops txn_id ts) s
  unfolding Store.one_phase_commit
  one_phase_commit-Refined ops txn_id ts s h w =
      let (kept, seen) = write_all-Refined ops ts s h w in
      Refined_if s (Store.one_phase_commit ops txn_id ts s).0 (write_all ops ts s)
        (write_batch ops ts (view s)) (allows_all ops txn_id (view s))
        (elim (validate-allows ops txn_id s) [
          | inl (a, v) ↦ ground arith
          | inr (a, e, v) ↦ ground arith
        ])
        w kept seen

  ingest-Refined :
      (pairs : Dict Bytes) (s : MemoryStore B)
      → InRange (ingest pairs)
      → IsMvccStore s
      → Refined (ingest pairs) s
  unfolding Store.ingest
  ingest-Refined [] s h w = (w, refl)
  ingest-Refined ((k, v) ∷ rest) s h w =
      let i : Item = record { key = k; value = v } in
      let next : MemoryStore B = record s { tree = B.replace_or_insert s.tree i } in
      let items = B.items-replace_or_insert s.tree i in
      let (kept, seen) =
        ingest-Refined rest next h.1
          (subst IsMvcc (sym items) (insert_item-IsMvcc i (B.items s.tree) h.0 w)) in
      (
        kept,
        seen
            ∙ ap (write_pairs rest)
                (Abstract-path (view-insert_item s next i items h.0 w.versions) refl),
      )

  run_gc-Refined : (safe_ts : ℕ) (s : MemoryStore B) → IsMvccStore s → Refined (run_gc safe_ts) s
  run_gc-Refined safe_ts s w = (
    subst IsMvcc (sym (run_gc_lem safe_ts s w.sorted).0) (kept-IsMvcc safe_ts (B.items s.tree) w),
    run_gc-Collected safe_ts s w,
  )

  pub call-Refined : (c : Call) (s : MemoryStore B) → InRange c → IsMvccStore s → Refined c s
  call-Refined (prepare key value txn_id) s h w = prepare-Refined key value txn_id s w
  call-Refined (commit key txn_id ts) s h w = commit-Refined key txn_id ts s h w
  call-Refined (abort key txn_id) s h w = abort-Refined key txn_id s w
  call-Refined (one_phase_commit ops txn_id ts) s h w = one_phase_commit-Refined ops txn_id ts s h w
  call-Refined (put key value) s h w = put-Refined key value s w
  call-Refined (run_gc safe_ts) s h w = run_gc-Refined safe_ts s w
  call-Refined (ingest pairs) s h w = ingest-Refined pairs s h w

  -- Every run of calls on a well-formed store, with uint64 timestamps and with ingests of versions
  -- only, is a run of the contract from the versions and the locks of the store to those after the
  -- run, call by call, and leaves a well-formed store. The contract has no tree and no encoded
  -- keys: a prepare sets a lock that is free or the transaction's own, a commit turns the owner's
  -- lock into a version, an abort removes the owner's lock, a batch writes all or nothing, and a
  -- collection drops only versions with a newer one, not after its timestamp, that stays, and drops
  -- all versions with a newer one, not after its timestamp, whose key is no proper prefix and no
  -- proper extension of another key with a version.
  pub run-Steps :
      (cs : List Call) (s : MemoryStore B)
      → All InRange cs
      → IsMvcc (B.items s.tree)
      → IsMvcc (B.items (run cs s).tree) × Steps cs (view s) (view (run cs s))
  run-Steps [] s h w = (w, done)
  run-Steps (c ∷ cs) s h w =
      let (kept, now) = call-Refined c s h.0 w in
      let (last, later) = run-Steps cs (call c s) h.1 kept in (last, step now later)
