-- ===== src/Store/Abstract/Written.antt =====
-- The versions that a call of internal/storage/memory.go writes, and the contract.
use mathlib.Core.Path.{subst}
use shard_db.Base.{
  ℕ, ◌^◌, ◌<◌, ◌≡◌, refl, sym, ap, ◌∙◌, Bool, true, false, none, List, [], ◌∷◌, arith,
  if◌then◌else◌, ◌⊎◌, inl, inr, Bool-cases, Option-cases,
}
use shard_db.Base.Result.{ok, err}
use shard_db.Bytes.{Bytes, bytes_equal}
use shard_db.Dict
use shard_db.Dict.{Dict}
use shard_db.Tree.{BTree}
use shard_db.Store
use shard_db.Store.{MemoryStore, Lock, BatchOp, validate, write_all, locked_by}
use shard_db.Store.Items.{IsMvcc}
use shard_db.Store.Seek.{version, version-IsVersion, insert_item-IsMvcc}
use shard_db.Store.Calls.{Call, call}
use shard_db.Store.Abstract.{Abstract, write, set_lock, allows_all, write_batch, Step}
use shard_db.Store.Abstract.View.{view, view-version, held-remove, Abstract-path}

module _ {B : BTree} where
  abbrev pub IsMvccStore : MemoryStore B → Type 0
  IsMvccStore s = IsMvcc (B.items s.tree)

  -- A version that is written, and the lock of its key removed.
  unfoldable pub written : Bytes → ℕ → Bytes → MemoryStore B → MemoryStore B
  written key ts value s = record {
    tree = B.replace_or_insert s.tree (version key ts value);
    locks = Dict.remove key s.locks;
  }

  pub view-written :
      (key : Bytes) (ts : ℕ) (value : Bytes) (s : MemoryStore B)
      → ts < 2 ^ 64
      → IsMvccStore s
      → view (written key ts value s) ≡ set_lock key none (write key ts value (view s))
  unfolding written
  view-written key ts value s h w =
      Abstract-path
        (view-version s (written key ts value s) key ts value
          (B.items-replace_or_insert s.tree (version key ts value)) h w.versions)
        (held-remove key s.locks)

  pub written-IsMvcc :
      (key : Bytes) (ts : ℕ) (value : Bytes) (s : MemoryStore B)
      → ts < 2 ^ 64
      → IsMvccStore s
      → IsMvccStore (written key ts value s)
  unfolding written
  written-IsMvcc key ts value s h w =
      subst IsMvcc (sym (B.items-replace_or_insert s.tree (version key ts value))) (
        insert_item-IsMvcc (version key ts value) (B.items s.tree)
          (version-IsVersion key ts value h) w)

  -- The call keeps the store well-formed and is a step of the contract.
  abbrev pub Refined : Call → MemoryStore B → Type 0
  Refined c s = IsMvccStore (call c s) × Step c (view s) (view (call c s))

  -- A call that may change the store.
  pub Refined_if :
      (s s' t : MemoryStore B) (a : Abstract) (b : Bool)
      → s' ≡ (if b then t else s)
      → IsMvccStore s
      → IsMvccStore t
      → view t ≡ a
      → IsMvccStore s' × (view s' ≡ (if b then a else view s))
  Refined_if s s' t a true e w wt v = (subst IsMvccStore (sym e) wt, ap view e ∙ v)
  Refined_if s s' t a false e w wt v = (subst IsMvccStore (sym e) w, ap view e)

  pub write_all-Refined :
      (ops : List BatchOp) (ts : ℕ) (s : MemoryStore B)
      → ts < 2 ^ 64
      → IsMvccStore s
      → IsMvccStore (write_all ops ts s) × (view (write_all ops ts s) ≡ write_batch ops ts (view s))
  unfolding write_all written
  write_all-Refined [] ts s h w = (w, refl)
  write_all-Refined (op ∷ ops) ts s h w =
      let next = written op.key ts op.value s in
      let (kept, seen) =
        write_all-Refined ops ts next h (written-IsMvcc op.key ts op.value s h w) in
      (kept, seen ∙ ap (write_batch ops ts) (view-written op.key ts op.value s h w))

  -- The first loop of OnePhaseCommit and its test.
  pub validate-allows :
      (ops : List BatchOp) (txn_id : Bytes) (s : MemoryStore B)
      → ((allows_all ops txn_id (view s) ≡ true) × (validate ops txn_id s.locks ≡ ok tt))
        ⊎ ((allows_all ops txn_id (view s) ≡ false)
            × (e : Store.StoreError) × (validate ops txn_id s.locks ≡ err e))
  unfolding validate
  validate-allows [] txn_id s = inl (refl, refl)
  validate-allows (op ∷ ops) txn_id s = elim (Option-cases (Dict.get op.key s.locks)) [
    | inl free ↦ elim (validate-allows ops txn_id s) [
      | inl (a, v) ↦ inl (ground arith, ground arith)
      | inr (a, e, v) ↦ inr (ground arith, e, ground arith)
    ]
    | inr (lock, held) ↦ elim (Bool-cases (bytes_equal lock.txn_id txn_id)) [
      | inl own ↦ elim (validate-allows ops txn_id s) [
        | inl (a, v) ↦ inl (ground arith, ground arith)
        | inr (a, e, v) ↦ inr (ground arith, e, ground arith)
      ]
      | inr foreign ↦ inr (ground arith, locked_by op.key lock.txn_id, ground arith)
    ]
  ]
