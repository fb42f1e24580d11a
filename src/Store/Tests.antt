-- ===== src/Store/Tests.antt =====
-- Runs of the store on a sorted list, and the theorems at concrete stores.
use shard_db.Base.{false, ◌≡◌, refl, none, some, List, [], ◌∷◌, All, arith, inl}
use shard_db.Base.Result.{ok, err}
use shard_db.Bytes.{Bytes, codes, bytes_compare, bytes_equal, put_uint, uint_from}
use shard_db.Dict
use shard_db.Mvcc.{encode_key, decode_key}
use shard_db.Tree.{Item, less}
use shard_db.Tree.SortedList.{sorted_list}
use shard_db.Store
use shard_db.Store.{MemoryStore, Lock, locked_by, get_txn, new_memory_store, mvcc_get_locked}
use shard_db.Store.Items.{IsApart, IsMvcc}
use shard_db.Store.Seek.{version}
use shard_db.Store.Read.{get_txn-latest}
use shard_db.Store.Gc.{get_txn-run_gc}
use shard_db.Store.Hidden.{get_hidden}
use shard_db.Store.Locks.{run-lock}
use shard_db.Store.Release.{Admits, release-prepare}
use shard_db.Store.Snapshot.{mvcc_get_locked-run}
use shard_db.Store.Versions.{mvcc_get, mvcc_get-before}
use shard_db.Store.Backup.{get_snapshot_data, restore_snapshot, restore_snapshot-loses}
use shard_db.Store.Calls.{Call, run}
use shard_db.Store.Abstract.{Steps}
use shard_db.Store.Abstract.View.{view}
use shard_db.Store.Abstract.Refine.{run-Steps}

abbrev user : Bytes
user = codes "t:u2"

abbrev owner : Bytes
owner = codes "txn-7"

abbrev held : Lock
held = record { txn_id = owner; value = codes "new" }

abbrev old_item : Item
old_item = version user 10 (codes "old")

abbrev mid_item : Item
mid_item = version user 20 (codes "mid")

abbrev items : List Item
items = mid_item ∷ old_item ∷ version (codes "t:v") 5 (codes "other") ∷ []

abbrev sample : MemoryStore sorted_list
sample = record { tree = items; locks = (user, held) ∷ [] }

abbrev free : MemoryStore sorted_list
free = record { tree = items; locks = [] }

-- The sample is what calls build.
abbrev script : List Call
script =
    Call.prepare user (codes "old") owner
    ∷ Call.commit user owner 10
    ∷ Call.one_phase_commit (record { key = user; value = codes "mid" } ∷ []) owner 20
    ∷ Call.prepare (codes "t:v") (codes "other") owner
    ∷ Call.commit (codes "t:v") owner 5
    ∷ Call.prepare user (codes "new") owner
    ∷ []

run-script : run script (new_memory_store sorted_list) ≡ sample
unfolding Store.prepare Store.commit Store.one_phase_commit Store.validate Store.write_all
    new_memory_store Dict.get Dict.put Dict.remove bytes_equal encode_key put_uint
run-script = refl

items-IsMvcc : IsMvcc items
unfolding bytes_compare encode_key decode_key put_uint uint_from
items-IsMvcc = record {
  sorted = ((refl, (refl, tt)), ((refl, tt), (tt, tt)));
  versions = ((refl, omega arith), ((refl, omega arith), ((refl, omega arith), tt)));
}

items-IsApart : All (IsApart user) items
unfolding bytes_equal encode_key decode_key put_uint uint_from
items-IsApart = (refl, (refl, (refl, tt)))

get_txn-latest_example : get_txn user 15 free ≡ ok (some (codes "old"))
unfolding Dict.get bytes_equal encode_key decode_key put_uint uint_from
get_txn-latest_example = get_txn-latest free user 15 items-IsMvcc items-IsApart (omega arith)

-- The collection at 25 drops the version at 10.
gc_drops : (Store.run_gc 25 free).1 ≡ 1
unfolding Store.run_gc Store.gc_visit Store.delete_all bytes_equal encode_key decode_key put_uint
    uint_from
gc_drops = refl

get_txn-run_gc_example : get_txn user 25 (Store.run_gc 25 free).0 ≡ get_txn user 25 free
get_txn-run_gc_example =
    get_txn-run_gc free user 25 25 items-IsMvcc items-IsApart (omega arith) (omega arith)

-- Two users, the name of one a prefix of the other's.
abbrev extended : Item
extended = version (codes "t:u10") 100 (codes "Bob")

abbrev alice : Item
alice = version (codes "t:u1") 100 (codes "Alice")

abbrev pair : MemoryStore sorted_list
pair = record { tree = extended ∷ alice ∷ []; locks = [] }

pair_built :
    run
      (Call.ingest (
          (encode_key (codes "t:u1") 100, codes "Alice")
          ∷ (encode_key (codes "t:u10") 100, codes "Bob")
          ∷ [])
        ∷ [])
      (new_memory_store sorted_list)
    ≡ pair
unfolding Store.ingest new_memory_store encode_key put_uint bytes_compare
pair_built = refl

pair-IsMvcc : IsMvcc (extended ∷ alice ∷ [])
unfolding bytes_compare encode_key decode_key put_uint uint_from
pair-IsMvcc = record {
  sorted = ((refl, tt), (tt, tt));
  versions = ((refl, omega arith), ((refl, omega arith), tt));
}

get_hidden_example : Store.get (codes "t:u1") pair ≡ ok none
unfolding Dict.get encode_key decode_key put_uint uint_from
get_hidden_example =
    get_hidden pair (codes "t:u1") b'0' [] extended pair-IsMvcc
      ((λ _. omega arith), ((λ _. omega arith), tt)) (inl refl) refl (omega arith) (omega arith)
      refl

-- Read at the commit's own timestamp, the same key is found.
get_txn_bounded : get_txn (codes "t:u1") 100 pair ≡ ok (some (codes "Alice"))
unfolding get_txn mvcc_get_locked Store.visit_version less bytes_equal Dict.get encode_key
    decode_key put_uint uint_from
get_txn_bounded = refl

abbrev foreign : List Call
foreign =
    Call.prepare user (codes "x") (codes "txn-8")
    ∷ Call.commit user (codes "txn-8") 50
    ∷ Call.abort user (codes "txn-8")
    ∷ Call.one_phase_commit (record { key = user; value = codes "x" } ∷ []) (codes "txn-8") 60
    ∷ Call.put user (codes "x")
    ∷ Call.run_gc 100
    ∷ []

run-lock_example : Dict.get user (run foreign sample).locks ≡ some held
unfolding bytes_equal Dict.get
run-lock_example =
    run-lock user held foreign sample refl (refl, (refl, (refl, (refl, (refl, (tt, tt))))))

abbrev later : List Call
later =
    Call.commit user owner 30
    ∷ Call.one_phase_commit (record { key = codes "t:v"; value = codes "x" } ∷ []) owner 60
    ∷ Call.run_gc 15
    ∷ []

mvcc_get_locked-run_example :
    mvcc_get_locked user 15 (run later sample) ≡ mvcc_get_locked user 15 sample
unfolding bytes_equal
mvcc_get_locked-run_example =
    mvcc_get_locked-run user 15 later sample items-IsMvcc items-IsApart (omega arith) (
      (omega arith, omega arith, refl),
      (((omega arith, omega arith, refl), tt), (omega arith, tt)),
    )

mvcc_get-before_example : mvcc_get user 20 free ≡ some (codes "old")
unfolding bytes_equal encode_key decode_key put_uint uint_from
mvcc_get-before_example = mvcc_get-before free user 19 (omega arith) items-IsMvcc items-IsApart

restore_snapshot-loses_example :
    let r = (restore_snapshot (some (get_snapshot_data sample)) (new_memory_store sorted_list)).0 in
    All (λ i. bytes_equal i.key (encode_key user 20) ≡ false) (sorted_list.items r.tree)
    × (r.locks ≡ [])
unfolding new_memory_store
restore_snapshot-loses_example =
    restore_snapshot-loses sample (new_memory_store sorted_list) user 20 (omega arith)

-- All calls, with one that is refused.
abbrev mixed : List Call
mixed =
    Call.prepare user (codes "newer") (codes "txn-8")
    ∷ Call.commit user owner 30
    ∷ Call.put (codes "t:v") (codes "put")
    ∷ Call.run_gc 40
    ∷ Call.prepare (codes "t:v") (codes "x") owner
    ∷ Call.abort (codes "t:v") owner
    ∷ Call.one_phase_commit (record { key = user; value = codes "x" } ∷ []) owner 60
    ∷ Call.ingest ((encode_key (codes "t:w") 7, codes "moved") ∷ [])
    ∷ []

run-Steps_example :
    IsMvcc (run mixed sample).tree × Steps mixed (view sample) (view (run mixed sample))
unfolding encode_key decode_key put_uint uint_from
run-Steps_example =
    run-Steps mixed sample
      (tt, (omega arith, (tt, (tt, (tt, (tt, (omega arith, (((refl, omega arith), tt), tt))))))))
      items-IsMvcc

release-prepare_example :
    let s = run foreign sample in
    let other = codes "txn-8" in
    (Store.prepare user (codes "x") other s ≡ (s, err (locked_by user owner)))
    × ((Store.abort user owner s).1 ≡ ok tt)
    × Admits user held other (codes "x") (Store.abort user owner s).0
    × ((Store.commit user owner 70 s).1 ≡ ok tt)
    × Admits user held other (codes "x") (Store.commit user owner 70 s).0
unfolding bytes_equal Dict.get
release-prepare_example =
    release-prepare user held foreign sample (codes "txn-8") (codes "x") 70 refl
      (refl, (refl, (refl, (refl, (refl, (tt, tt)))))) refl
