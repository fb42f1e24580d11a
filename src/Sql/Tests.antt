-- ===== src/Sql/Tests.antt =====
-- A table with two rows, one of them with two versions, and the theorems of the executor at it.
use shard_db.Base.{◌≡◌, refl, some, List, [], ◌∷◌, arith}
use shard_db.Base.Result.{ok}
use shard_db.Bytes.{codes, bytes_compare, bytes_equal, put_uint, uint_from}
use shard_db.Dict
use shard_db.Mvcc.{encode_key, decode_key}
use shard_db.Sql.{point_get_node, insert_node}
use shard_db.Sql.Executor.{execute, row_key}
use shard_db.Sql.Executor.Insert.{point_get-insert}
use shard_db.Store.{MemoryStore}
use shard_db.Store.Items.{IsMvcc}
use shard_db.Store.Seek.{version}
use shard_db.Tree.{Item}
use shard_db.Tree.SortedList.{sorted_list}

abbrev items : List Item
items =
    version (codes "t:u2") 20 (codes "u2,new")
    ∷ version (codes "t:u2") 10 (codes "u2,old")
    ∷ version (codes "t:u3") 5 (codes "u3,x")
    ∷ []

abbrev store : MemoryStore sorted_list
store = record { tree = items; locks = [] }

items-IsMvcc : IsMvcc items
unfolding bytes_compare encode_key decode_key put_uint uint_from
items-IsMvcc = record {
  sorted = ((refl, (refl, tt)), ((refl, tt), (tt, tt)));
  versions = ((refl, omega arith), ((refl, omega arith), ((refl, omega arith), tt)));
}

point_get-insert_example :
    let r = execute (insert_node (codes "t") [] (codes "u2" ∷ codes "z" ∷ [])) store 30 in
    (r.1 ≡ ok (some ((codes "Inserted 1 row" ∷ []) ∷ [])))
    × ((execute (point_get_node (codes "t") (codes "u2")) r.0 40).1
        ≡ ok (some ((codes "u2" ∷ codes "u2,z" ∷ []) ∷ [])))
unfolding Dict.get row_key bytes_equal encode_key decode_key put_uint uint_from
    shard_db.Strings.join
point_get-insert_example =
    point_get-insert store (codes "t") (codes "u2") [] (codes "z" ∷ []) 30 40 refl items-IsMvcc
      (refl, (refl, (refl, tt))) (omega arith) (omega arith) refl
