-- ===== src/Shard/Execute.antt =====
-- cmd/shard-node/main.go: the handler of /execute, which proposes a statement, and reads the node's own
-- store for a SELECT.
use shard_db.Base.{
  ◌≡◌, refl, ap, ◌∙◌, true, false, Option, none, some, List, [], ◌∷◌, All, arith, if◌then◌else◌,
}
use shard_db.Base.Result.{Result, ok, err}
use shard_db.Bytes.{Bytes, codes}
use shard_db.Dict
use shard_db.Mvcc.{max_uint64}
use shard_db.Sql.{PlanNode, insert_node, point_get_node, Row, SqlError}
use shard_db.Sql.Executor.{execute, row_key}
use shard_db.Sql.Executor.Insert.{point_get-insert}
use shard_db.Store.{MemoryStore}
use shard_db.Store.Items.{IsMvcc, IsApart, latest, newer}
use shard_db.Store.Seek.{version}
use shard_db.Strings.{has_prefix, to_upper, join}
use shard_db.Shard.{Parsers, apply_entry, sql_entry}
use shard_db.Tree.{BTree}

-- The rows as JSON (`none` is null), with the counter that metrics.Inc adds one to; or a text.
pub data ExecuteResponse : Type 0 where
  rows_response : Option (List Row) → Bytes → ExecuteResponse
  text_response : Bytes → ExecuteResponse

-- The error of Execute is ignored.
abbrev pub rows_of : Result SqlError (Option (List Row)) → Option (List Row)
rows_of (ok rows) = rows
rows_of (err e) = none

module _ {B : BTree} (p : Parsers) where
  -- The entry that is proposed, the store behind the read, and the response. The error of ParseToPlan
  -- is ignored, and Execute of the nil plan is an error, with nil rows.
  unfoldable pub execute_handler :
      Bytes → Bytes → MemoryStore B → Bytes × MemoryStore B × ExecuteResponse
  execute_handler sql_param body s =
      let sql_str : Bytes = elim sql_param [ [] ↦ body | c ∷ cs ↦ c ∷ cs ] in
      let entry = sql_entry sql_str in
      if has_prefix (to_upper sql_str) (codes "SELECT")
      then elim (p.parse_to_plan sql_str) [
        | err e ↦ (entry, s, rows_response none (codes "ops_select"))
        | ok plan ↦
            let (s', rows) = execute plan s max_uint64 in
            (entry, s', rows_response (rows_of rows) (codes "ops_select"))
      ]
      else (entry, s, text_response (codes "OK"))

  -- The entry of a statement runs its plan at the timestamp 100.
  apply_entry-sql_entry :
      (sql : Bytes) (plan : PlanNode) (s : MemoryStore B)
      → p.parse_to_plan sql ≡ ok plan
      → apply_entry p (sql_entry sql) s ≡ (execute plan s 100).0
  unfolding apply_entry sql_entry has_prefix
  apply_entry-sql_entry sql plan s parsed = ground arith

  -- A statement that is no SELECT is only proposed.
  execute_handler-other :
      (sql : Bytes) (s : MemoryStore B)
      → has_prefix (to_upper sql) (codes "SELECT") ≡ false
      → execute_handler [] sql s ≡ (sql_entry sql, s, text_response (codes "OK"))
  unfolding execute_handler
  execute_handler-other sql s other = ground arith

  execute_handler-lookup :
      (sql table pk : Bytes) (s : MemoryStore B)
      → p.parse_to_plan sql ≡ ok (point_get_node table pk)
      → has_prefix (to_upper sql) (codes "SELECT") ≡ true
      → execute_handler [] sql s ≡ (
        sql_entry sql,
        s,
        rows_response
            (rows_of (execute (point_get_node table pk) s max_uint64).1)
            (codes "ops_select"),
      )
  unfolding execute_handler execute
  execute_handler-lookup sql table pk s parsed select = ground arith

  -- A row that is inserted through /execute, read through /execute once the entry is applied, in a
  -- well-formed store, where no transaction holds the row's key and no other stored key is a proper
  -- prefix or a proper extension of it: the insert answers with OK, and the lookup of the row's
  -- first value answers with one row. It is the inserted one if no version of the row has a
  -- timestamp after 100, and else the newest such version: the insert, which is applied at the
  -- timestamp 100, does not change what is read.
  pub execute_handler-apply_entry :
      (insert_sql select_sql table pk : Bytes) (columns vs : List Bytes) (s : MemoryStore B)
      → p.parse_to_plan insert_sql ≡ ok (insert_node table columns (pk ∷ vs))
      → p.parse_to_plan select_sql ≡ ok (point_get_node table pk)
      → has_prefix (to_upper insert_sql) (codes "SELECT") ≡ false
      → has_prefix (to_upper select_sql) (codes "SELECT") ≡ true
      → Dict.get (row_key table pk) s.locks ≡ none
      → IsMvcc (B.items s.tree)
      → All (IsApart (row_key table pk)) (B.items s.tree)
      → let key = row_key table pk in
        let sent = execute_handler [] insert_sql s in
        let applied = apply_entry p sent.0 s in
        let read = execute_handler [] select_sql applied in
        let found =
          newer
            (version key 100 (join (pk ∷ vs) (codes ",")))
            (latest key max_uint64 (B.items s.tree)) in
        (sent.1 ≡ s)
        × (sent.2 ≡ text_response (codes "OK"))
        × (read.1 ≡ applied)
        × (read.2 ≡ rows_response (some ((pk ∷ found.value ∷ []) ∷ [])) (codes "ops_select"))
  execute_handler-apply_entry insert_sql select_sql table pk columns vs s ins sel no_select select
        free w apart =
      let node = insert_node table columns (pk ∷ vs) in
      let sent = execute_handler-other insert_sql s no_select in
      let applied = apply_entry p (execute_handler [] insert_sql s).0 s in
      let step : applied ≡ (execute node s 100).0 =
        ap (λ e. apply_entry p e s) (ap (λ r. r.0) sent)
        ∙ apply_entry-sql_entry insert_sql node s ins in
      let read = execute_handler-lookup select_sql table pk applied sel select in
      let row =
        point_get-insert s table pk columns vs 100 max_uint64 free w apart (omega arith)
          (omega arith) refl in
      (
        ap (λ r. r.1) sent,
        ap (λ r. r.2) sent,
        ap (λ r. r.1) read,
        ap (λ r. r.2) read
            ∙ ap
                (λ t.
                  rows_response (rows_of (execute (point_get_node table pk) t max_uint64).1)
                    (codes "ops_select"))
                step
            ∙ ap (λ r. rows_response (rows_of r) (codes "ops_select")) row.1,
      )
