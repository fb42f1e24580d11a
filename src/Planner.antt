-- ===== src/Planner.antt =====
-- internal/planner/planner.go: to which shards a statement goes. sqlparser is the parameter of the
-- SQL layer.
pub mod Equality
pub mod Routing
use shard_db.Base.{ℕ, Bool, true, false, Option, none, some, List, [], ◌∷◌, if◌then◌else◌}
use shard_db.Base.Result.{Result, ok, err}
use shard_db.Bytes.{Bytes, codes, bytes_equal}
use shard_db.Sql.Parser.{
  SqlParser, Select, Insert, Statement, select_statement, insert_statement, other_statement,
}

-- One shard by the routing key, or a broadcast without a key.
pub data Plan : Type 0 where
  plan_single : Bytes → Plan
  plan_broadcast : Plan

pub data PlannerError : Type 0 where
  parse_failed : Bytes → PlannerError
  no_values : PlannerError
  empty_row : PlannerError

module _ (P : SqlParser) where
  -- analyzeInsert
  unfoldable pub analyze_insert : Insert P → Result PlannerError Plan
  analyze_insert stmt = elim stmt.rows [
    | none ↦ err no_values
    | some [] ↦ err no_values
    | some (row ∷ _) ↦ elim row [
      | [] ↦ err empty_row
      | val_expr ∷ _ ↦
          ok (
            plan_single
              (elim (P.as_sql_val val_expr) [ some val ↦ val | none ↦ P.string val_expr ]))
    ]
  ]

  -- the function that Walk calls at a node: the value of `column = value`
  unfoldable pub node_key : P.Node → Option Bytes
  node_key node = elim (P.as_comparison node) [
    | none ↦ none
    | some (operator, left, right) ↦
        if bytes_equal operator (codes "=")
        then (if P.is_col_name left then P.as_sql_val right else none)
        else none
  ]

  -- the walk over the WHERE clause: once a key is found, no other node is looked at
  unfoldable pub find_key : List P.Node → Option Bytes
  find_key [] = none
  find_key (node ∷ nodes) =
      let rest = find_key nodes in elim (node_key node) [ some val ↦ some val | none ↦ rest ]

  -- analyzeSelect
  unfoldable pub analyze_select : Select P → Result PlannerError Plan
  analyze_select stmt = elim stmt.where_expr [
    | none ↦ ok plan_broadcast
    | some expr ↦ elim (find_key (P.walk_order expr)) [
      | some key ↦ ok (plan_single key)
      | none ↦ ok plan_broadcast
    ]
  ]

  -- Analyze
  unfoldable pub analyze : (Bytes → Result Bytes (Statement P)) → Bytes → Result PlannerError Plan
  analyze parse sql = elim (parse sql) [
    | err e ↦ err (parse_failed e)
    | ok (select_statement s) ↦ analyze_select s
    | ok (insert_statement s) ↦ analyze_insert s
    | ok other_statement ↦ ok (plan_single (codes "default"))
  ]
