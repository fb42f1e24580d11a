-- ===== src/Sql/Parser.antt =====
-- internal/sql/parser.go: a parsed statement becomes a plan. The package sqlparser is a parameter.
use shard_db.Base.{Bool, Option, none, some, List, [], ◌∷◌, if◌then◌else◌}
use shard_db.Base.Result.{Result, ok, err}
use shard_db.Bytes.{Bytes, bytes_equal, codes}
use shard_db.Sql.{
  PlanNode, scan_node, point_get_node, insert_node, project_node, filter_node, SqlError,
  parse_error, unsupported, no_from, complex_from, insert_from_select,
}

-- What the code uses of sqlparser: a node's text, the type assertions that the code makes on nodes,
-- and the nodes in the order of Walk. A statement has the fields that the code reads.
pub record SqlParser : Type 1 where
  pub Node : Type 0
  pub string : Node → Bytes
  -- Operator, Left and Right of a *ComparisonExpr
  pub as_comparison : Node → Option (Bytes × Node × Node)
  pub is_col_name : Node → Bool
  -- Val of a *SQLVal
  pub as_sql_val : Node → Option Bytes
  pub walk_order : Node → List Node

-- A select expression that is neither is skipped.
pub data SelectExpr (P : SqlParser) : Type 0 where
  aliased_expr : P.Node → SelectExpr P
  star_expr : SelectExpr P
  other_select_expr : SelectExpr P

-- `none` in `from` is a table expression that is no *AliasedTableExpr.
pub record Select (P : SqlParser) : Type 0 where
  pub from : List (Option P.Node)
  pub where_expr : Option P.Node
  pub select_exprs : List (SelectExpr P)

-- `rows` is `none` where the rows are no Values.
pub record Insert (P : SqlParser) : Type 0 where
  pub table : Bytes
  pub columns : List Bytes
  pub rows : Option (List (List P.Node))

pub data Statement (P : SqlParser) : Type 0 where
  select_statement : Select P → Statement P
  insert_statement : Insert P → Statement P
  other_statement : Statement P

module _ (P : SqlParser) where
  -- the test for a point lookup, `column = value`, with the value
  unfoldable pub equality_value : P.Node → Option Bytes
  equality_value node = elim (P.as_comparison node) [
    | none ↦ none
    | some (operator, left, right) ↦
        if bytes_equal operator (codes "=")
        then (if P.is_col_name left then P.as_sql_val right else none)
        else none
  ]

  -- the loop over the select expressions
  unfoldable pub column_names : List (SelectExpr P) → List Bytes
  column_names [] = []
  column_names (aliased_expr e ∷ es) = P.string e ∷ column_names es
  column_names (star_expr ∷ es) = codes "*" ∷ column_names es
  column_names (other_select_expr ∷ es) = column_names es

  -- buildSelectPlan
  unfoldable pub build_select_plan : Select P → Result SqlError PlanNode
  build_select_plan stmt = elim stmt.from [
    | [] ↦ err no_from
    | none ∷ _ ↦ err complex_from
    | some table ∷ _ ↦
        let name = P.string table in
        let cols = column_names stmt.select_exprs in
        elim stmt.where_expr [
          | none ↦ ok (project_node (scan_node name) cols)
          | some expr ↦ elim (equality_value expr) [
            | some val ↦ ok (point_get_node name val)
            | none ↦ ok (project_node (filter_node (scan_node name) (P.string expr)) cols)
          ]
        ]
  ]

  -- the loop over the values of a row
  unfoldable pub row_values : List P.Node → List Bytes
  row_values [] = []
  row_values (v ∷ vs) = elim (P.as_sql_val v) [ some val ↦ val | none ↦ P.string v ] ∷ row_values vs

  -- buildInsertPlan
  unfoldable pub build_insert_plan : Insert P → Result SqlError PlanNode
  build_insert_plan stmt = elim stmt.rows [
    | none ↦ err insert_from_select
    | some rows ↦
        let values : List Bytes = elim rows [ [] ↦ [] | row ∷ _ ↦ row_values row ] in
        ok (insert_node stmt.table stmt.columns values)
  ]

  -- ParseToPlan; `parse` is sqlparser.Parse, whose error is its message
  unfoldable pub parse_to_plan :
      (Bytes → Result Bytes (Statement P)) → Bytes → Result SqlError PlanNode
  parse_to_plan parse sql = elim (parse sql) [
    | err e ↦ err (parse_error e)
    | ok (select_statement s) ↦ build_select_plan s
    | ok (insert_statement s) ↦ build_insert_plan s
    | ok other_statement ↦ err unsupported
  ]
