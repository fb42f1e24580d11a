-- ===== src/Sql/Executor.antt =====
-- internal/sql/executor.go: plans run on the store of memory.go. A nil slice of rows is `none`.
pub mod Insert
pub mod Rows
pub mod Callback
pub mod Range
pub mod Visible
pub mod Table
use shard_db.Base.{
  ℕ, Bool, true, false, not, Option, none, some, List, [], ◌∷◌, ◌++◌, leb, if◌then◌else◌,
}
use shard_db.Base.Result.{Result, ok, err}
use shard_db.Bytes.{Bytes, bytes_equal, codes}
use shard_db.Decimal.{format_decimal}
use shard_db.Dict
use shard_db.Dict.{Dict}
use shard_db.Mvcc.{decode_key}
use shard_db.Store.{MemoryStore, prepare, commit, get_txn, scan}
use shard_db.Strings.{has_prefix, split_two, join}
use shard_db.Tree.{BTree}
use shard_db.Sql.{
  PlanNode, scan_node, point_get_node, insert_node, project_node, filter_node, SqlError,
  unsupported, unknown_node, engine_error, Row,
}

abbrev pub Rows : Type 0
Rows = Result SqlError (Option (List Row))

-- `table + ":" + key`
unfoldable pub row_key : Bytes → Bytes → Bytes
row_key table key = table ++ (codes ":" ++ key)

-- the variables that the callback of executeScan captures
pub record ScanState : Type 0 where
  pub rows : List Row
  pub seen_keys : Dict Bool

-- a missing key of a map of Booleans reads as false
abbrev pub is_set : Option Bool → Bool
is_set none = false
is_set (some b) = b

-- the key of a row without the table
unfoldable pub real_key : Bytes → Bytes
real_key key_str = elim (split_two key_str b':') [ _ ∷ (part ∷ []) ↦ part | _ ↦ key_str ]

-- the callback of executeScan
unfoldable pub scan_row : Bytes → ℕ → Bytes → Bytes → ScanState → ScanState × Bool
scan_row prefix read_ts k v state =
    let (key_str, decoded_ts) = decode_key k in
    if not (has_prefix key_str prefix)
    then (state, true)
    else if is_set (Dict.get key_str state.seen_keys)
    then (state, true)
    else if leb decoded_ts read_ts
    then (
      record {
        rows = state.rows ++ (real_key key_str ∷ v ∷ []) ∷ [];
        seen_keys = Dict.put key_str true state.seen_keys;
      },
      true,
    )
    else (state, true)

-- `var rows []Row` stays nil until the first append.
abbrev pub rows_or_nil : List Row → Option (List Row)
rows_or_nil [] = none
rows_or_nil (r ∷ rs) = some (r ∷ rs)

module _ {B : BTree} where
  -- executeInsert
  unfoldable pub execute_insert : Bytes → List Bytes → MemoryStore B → ℕ → MemoryStore B × Rows
  execute_insert table [] s commit_ts = (s, ok none)
  execute_insert table (pk ∷ vs) s commit_ts =
      let val_str = join (pk ∷ vs) (codes ",") in
      let user_key = row_key table pk in
      let txn_id = codes "auto-" ++ format_decimal commit_ts in
      let (prepared, r) = prepare user_key val_str txn_id s in
      elim r [
        | err e ↦ (prepared, err (engine_error e))
        | ok _ ↦
            let (committed, r') = commit user_key txn_id commit_ts prepared in
            elim r' [
              | err e ↦ (committed, err (engine_error e))
              | ok _ ↦ (committed, ok (some ((codes "Inserted 1 row" ∷ []) ∷ [])))
            ]
      ]

  -- executePointGet; the store has no value that is nil
  unfoldable pub execute_point_get : Bytes → Bytes → MemoryStore B → ℕ → Rows
  execute_point_get table key s read_ts = elim (get_txn (row_key table key) read_ts s) [
    | err e ↦ err (engine_error e)
    | ok none ↦ ok (some [])
    | ok (some val) ↦ ok (some ((key ∷ val ∷ []) ∷ []))
  ]

  -- executeScan
  unfoldable pub execute_scan : Bytes → MemoryStore B → ℕ → Rows
  execute_scan table s read_ts =
      let prefix = table ++ codes ":" in
      let state =
        scan ScanState prefix (some (prefix ++ 255 ∷ [])) (scan_row prefix read_ts) s
          (record { rows = []; seen_keys = [] }) in
      ok (rows_or_nil state.rows)

  -- executeAny, with executeFilter and executeProject, which return the rows of their input
  unfoldable pub execute_any : PlanNode → MemoryStore B → ℕ → Rows
  execute_any (scan_node table) s read_ts = execute_scan table s read_ts
  execute_any (filter_node input expr) s read_ts = execute_any input s read_ts
  execute_any (project_node input columns) s read_ts = execute_any input s read_ts
  execute_any (point_get_node table key) s read_ts = execute_point_get table key s read_ts
  execute_any (insert_node table columns values) s read_ts = err unknown_node

  -- Execute
  unfoldable pub execute : PlanNode → MemoryStore B → ℕ → MemoryStore B × Rows
  execute (insert_node table columns values) s read_ts = execute_insert table values s read_ts
  execute (point_get_node table key) s read_ts = (s, execute_point_get table key s read_ts)
  execute (project_node input columns) s read_ts = (s, execute_any input s read_ts)
  execute (scan_node table) s read_ts = (s, err unsupported)
  execute (filter_node input expr) s read_ts = (s, err unsupported)
