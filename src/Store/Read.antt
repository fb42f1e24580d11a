-- ===== src/Store/Read.antt =====
-- GetTxn and Commit of internal/storage/memory.go against the newest visible version.
use shard_db.Base.{
  ℕ, ◌^◌, ◌<◌, ◌≡◌, ap, ◌∙◌, Ordering, Bool, ◌&&◌, Option, none, some, List, [], ◌∷◌, All, arith,
  leb, if◌then◌else◌,
}
use mathlib.Core.Path.{ap₂}
use shard_db.Base.Result.{ok, err}
use shard_db.Bytes.{Bytes, bytes_compare, bytes_equal}
use shard_db.Bytes.Order.{eq_of_compare, equal_refl}
use shard_db.Dict
use shard_db.Mvcc.{decode_key}
use shard_db.Tree.{BTree, Item, insert_item}
use shard_db.Tree.Walk.{All-insert_item}
use shard_db.Store.{MemoryStore, Lock, locked_by, mvcc_get_locked, get_txn, commit}
use shard_db.Store.Items.{IsVersion, IsApart, IsMvcc, user_key, stamp, latest, newer, value_of}
use shard_db.Store.Seek.{
  mvcc_get_locked-latest, version, user_key-version, stamp-version, version-IsVersion,
  insert_item-IsMvcc, newer_replaced, newer_swap, distinct_stamps,
}

module _ {B : BTree} (s : MemoryStore B) (key : Bytes) (ts : ℕ) where
  -- In a well-formed store, at a key that is neither a proper prefix nor a proper extension of
  -- another stored key: GetTxn fails with the owner's name exactly when the key is locked, and
  -- else returns the value of the newest version with a timestamp at or before the read's, nil if
  -- there is none.
  pub get_txn-latest :
      IsMvcc (B.items s.tree)
      → All (IsApart key) (B.items s.tree)
      → ts < 2 ^ 64
      → get_txn key ts s ≡ (elim (Dict.get key s.locks) [
        | some lock ↦ err (locked_by key lock.txn_id)
        | none ↦ ok (value_of (latest key ts (B.items s.tree)))
      ])
  unfolding get_txn
  get_txn-latest w apart h = ground (arith, mvcc_get_locked-latest s key ts w apart h)

module _ (key : Bytes) (ts : ℕ) where
  -- Whether a read of the key at the timestamp may return the item.
  abbrev pub sees : Item → Bool
  sees i = bytes_equal (user_key i) key && leb (stamp i) ts

  abbrev pub joined : Item → Option Item → Option Item
  joined i o = if sees i then some (newer i o) else o

  joined_replaced :
      (i j : Item) (o : Option Item) → i.key ≡ j.key → joined i o ≡ joined i (joined j o)
  joined_replaced i j o e = ground (
    arith,
    ap (λ (k : Bytes). (decode_key k).0) e,
    ap (λ (k : Bytes). (decode_key k).1) e,
    newer_replaced i j o,
  )

  joined_swap :
      (i j : Item) (o : Option Item)
      → IsVersion i
      → IsVersion j
      → bytes_compare i.key j.key ≡ Ordering.gt
      → joined j (joined i o) ≡ joined i (joined j o)
  joined_swap i j o v w g = ground (arith, newer_swap i j o, distinct_stamps key i j v w)

  -- A version that is written joins the versions of its key, and no others.
  pub latest-insert_item :
      (i : Item) (is : List Item)
      → IsVersion i
      → All IsVersion is
      → latest key ts (insert_item i is) ≡ joined i (latest key ts is)
  latest-insert_item i [] v vs = ground arith
  latest-insert_item i (j ∷ js) v vs = ground (
    arith,
    latest-insert_item i js v vs.1,
    joined_swap i j (latest key ts js) v vs.0,
    joined_replaced i j (latest key ts js),
    eq_of_compare i.key j.key,
  )

pub sees-version :
    (j key : Bytes) (ts commit_ts : ℕ) (value : Bytes)
    → commit_ts < 2 ^ 64
    → sees j ts (version key commit_ts value) ≡ (bytes_equal key j && leb commit_ts ts)
sees-version j key ts commit_ts value h =
    ap₂ (λ (k : Bytes) (t : ℕ). bytes_equal k j && leb t ts)
      (user_key-version key commit_ts value h) (stamp-version key commit_ts value h)

version-IsApart :
    (key : Bytes) (ts : ℕ) (value : Bytes) → ts < 2 ^ 64 → IsApart key (version key ts value)
version-IsApart key ts value h = ground (arith, user_key-version key ts value h, equal_refl key)

-- What a read finds once a version of `key` is written.
pub mvcc_get_locked-insert_item :
    {B : BTree} (s t : MemoryStore B) (j key : Bytes) (ts commit_ts : ℕ) (value : Bytes)
    → B.items t.tree ≡ insert_item (version key commit_ts value) (B.items s.tree)
    → IsMvcc (B.items s.tree)
    → All (IsApart j) (B.items s.tree)
    → IsApart j (version key commit_ts value)
    → commit_ts < 2 ^ 64
    → ts < 2 ^ 64
    → mvcc_get_locked j ts t
      ≡ value_of (
          if bytes_equal key j && leb commit_ts ts
          then some (newer (version key commit_ts value) (latest j ts (B.items s.tree)))
          else latest j ts (B.items s.tree))
mvcc_get_locked-insert_item {B} s t j key ts commit_ts value e w apart own h k =
    let v = version-IsVersion key commit_ts value h in
    let i = version key commit_ts value in
    mvcc_get_locked-latest t j ts (rw e (insert_item-IsMvcc i (B.items s.tree) v w))
      (rw e (All-insert_item (IsApart j) i (B.items s.tree) own apart)) k
    ∙ ap (λ (is : List Item). value_of (latest j ts is)) e
    ∙ ap value_of (latest-insert_item j ts i (B.items s.tree) v w.versions)
    ∙ ap
        (λ (b : Bool). value_of (
          if b
          then some (newer i (latest j ts (B.items s.tree)))
          else latest j ts (B.items s.tree)))
        (sees-version j key ts commit_ts value h)

module _ {B : BTree} (s : MemoryStore B) (key : Bytes) (lock : Lock) (commit_ts ts : ℕ) where
  commit_tree :
      Dict.get key s.locks ≡ some lock
      → B.items (commit key lock.txn_id commit_ts s).0.tree
        ≡ insert_item (version key commit_ts lock.value) (B.items s.tree)
  unfolding commit
  commit_tree l = ground (
    arith,
    equal_refl lock.txn_id,
    B.items-replace_or_insert s.tree (version key commit_ts lock.value),
  )

  commit_locks :
      Dict.get key s.locks ≡ some lock
      → Dict.get key (commit key lock.txn_id commit_ts s).0.locks ≡ none
  unfolding commit
  commit_locks l =
      ground (arith, equal_refl lock.txn_id, Dict.get-remove key key s.locks, equal_refl key)

  -- When the owner of a lock commits, in a well-formed store and at a key that is neither a proper
  -- prefix nor a proper extension of another stored key, reads of the key are no longer refused. A
  -- read before the commit's timestamp returns what it found before; a read at or after it returns
  -- the committed value, unless a version with a larger visible timestamp was there.
  pub get_txn-commit :
      Dict.get key s.locks ≡ some lock
      → IsMvcc (B.items s.tree)
      → All (IsApart key) (B.items s.tree)
      → commit_ts < 2 ^ 64
      → ts < 2 ^ 64
      → get_txn key ts (commit key lock.txn_id commit_ts s).0
        ≡ ok (
            value_of (
              if leb commit_ts ts
              then some (newer (version key commit_ts lock.value) (latest key ts (B.items s.tree)))
              else latest key ts (B.items s.tree)))
  unfolding get_txn
  get_txn-commit l w apart h k = ground (
    arith,
    commit_locks l,
    equal_refl key,
    mvcc_get_locked-insert_item s (commit key lock.txn_id commit_ts s).0 key key ts commit_ts
        lock.value (commit_tree l) w apart (version-IsApart key commit_ts lock.value h) h k,
  )
