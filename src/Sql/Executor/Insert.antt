-- ===== src/Sql/Executor/Insert.antt =====
-- An INSERT and the point lookup of its row.
use shard_db.Base.{
  ℕ, ◌≡◌, ap, ◌∙◌, true, none, some, List, [], ◌∷◌, ◌++◌, leb, if◌then◌else◌, All, ◌<◌, ◌^◌, arith,
}
use shard_db.Base.Result.{ok}
use shard_db.Bytes.{Bytes, codes}
use shard_db.Bytes.Order.{equal_refl}
use shard_db.Decimal.{format_decimal}
use shard_db.Dict
use shard_db.Dict.{Dict}
use shard_db.Store.{MemoryStore, Lock, prepare, commit, get_txn}
use shard_db.Store.Items.{IsMvcc, IsApart, latest, newer, value_of}
use shard_db.Store.Read.{get_txn-commit}
use shard_db.Store.Seek.{version}
use shard_db.Strings.{join}
use shard_db.Tree.{BTree}
use shard_db.Sql.{point_get_node, insert_node}
use shard_db.Sql.Executor.{row_key, execute, execute_insert, execute_point_get}

abbrev auto : ℕ → Bytes
auto commit_ts = codes "auto-" ++ format_decimal commit_ts

module _ {B : BTree} (s : MemoryStore B) (key value : Bytes) (commit_ts : ℕ) where
  abbrev lock : Lock
  lock = record { txn_id = auto commit_ts; value = value }

  -- the store between the two calls of executeInsert
  abbrev prepared : MemoryStore B
  prepared = record s { locks = Dict.put key lock s.locks }

  prepare-free :
      Dict.get key s.locks ≡ none → prepare key value (auto commit_ts) s ≡ (prepared, ok tt)
  unfolding prepare
  prepare-free free = ground arith

  prepared_lock : Dict.get key (Dict.put key lock s.locks) ≡ some lock
  prepared_lock =
      Dict.get-put key key lock s.locks
      ∙ ap (λ b. if b then some lock else Dict.get key s.locks) (equal_refl key)

  commit-prepared : (commit key (auto commit_ts) commit_ts prepared).1 ≡ ok tt
  unfolding commit
  commit-prepared = ground (arith, prepared_lock, equal_refl (auto commit_ts))

insert_lem :
    {B : BTree} (s : MemoryStore B) (table pk : Bytes) (vs : List Bytes) (commit_ts : ℕ)
    → let key = row_key table pk in
      let value = join (pk ∷ vs) (codes ",") in
      Dict.get key s.locks ≡ none
      → execute_insert table (pk ∷ vs) s commit_ts ≡ (
        (commit key (auto commit_ts) commit_ts (prepared s key value commit_ts)).0,
        ok (some ((codes "Inserted 1 row" ∷ []) ∷ [])),
      )
unfolding execute_insert
insert_lem s table pk vs commit_ts free =
    let key = row_key table pk in
    let value = join (pk ∷ vs) (codes ",") in
    ground (arith, prepare-free s key value commit_ts free, commit-prepared s key value commit_ts)

point_get-found :
    {B : BTree} (s : MemoryStore B) (table pk : Bytes) (read_ts : ℕ) (value : Bytes)
    → get_txn (row_key table pk) read_ts s ≡ ok (some value)
    → execute_point_get table pk s read_ts ≡ ok (some ((pk ∷ value ∷ []) ∷ []))
unfolding execute_point_get
point_get-found s table pk read_ts value h = ground arith

-- INSERT of a row whose key no transaction holds, in a well-formed store and at a key that is neither
-- a proper prefix nor a proper extension of another stored key: it succeeds, and a point lookup of
-- the row's first value, at the insert's timestamp or later, answers with one row: that value and
-- the inserted values joined by commas, unless a newer version that the lookup sees was there.
pub point_get-insert :
    {B : BTree} (s : MemoryStore B) (table pk : Bytes) (columns vs : List Bytes)
    (commit_ts read_ts : ℕ)
    → Dict.get (row_key table pk) s.locks ≡ none
    → IsMvcc (B.items s.tree)
    → All (IsApart (row_key table pk)) (B.items s.tree)
    → commit_ts < 2 ^ 64
    → read_ts < 2 ^ 64
    → leb commit_ts read_ts ≡ true
    → let key = row_key table pk in
      let value = join (pk ∷ vs) (codes ",") in
      let found = newer (version key commit_ts value) (latest key read_ts (B.items s.tree)) in
      let r = execute (insert_node table columns (pk ∷ vs)) s commit_ts in
      (r.1 ≡ ok (some ((codes "Inserted 1 row" ∷ []) ∷ [])))
      × ((execute (point_get_node table pk) r.0 read_ts).1
          ≡ ok (some ((pk ∷ found.value ∷ []) ∷ [])))
unfolding execute
point_get-insert {B} s table pk columns vs commit_ts read_ts free w apart h k visible =
    let key = row_key table pk in
    let value = join (pk ∷ vs) (codes ",") in
    let found = newer (version key commit_ts value) (latest key read_ts (B.items s.tree)) in
    let e = insert_lem s table pk vs commit_ts free in
    let s' = prepared s key value commit_ts in
    let read =
      get_txn-commit s' key (lock s key value commit_ts) commit_ts read_ts
        (prepared_lock s key value commit_ts) w apart h k in
    (
      ap (λ r. r.1) e,
      ap (λ r. execute_point_get table pk r.0 read_ts) e
          ∙ point_get-found (commit key (auto commit_ts) commit_ts s').0 table pk read_ts
              found.value
              (read
                ∙ ap
                    (λ b.
                      ok (value_of (if b then some found else latest key read_ts (B.items s.tree))))
                    visible),
    )
