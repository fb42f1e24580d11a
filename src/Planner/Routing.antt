-- ===== src/Planner/Routing.antt =====
-- The routing of a row's INSERT and of its point lookup.
use shard_db.Base.{◌++◌, All, inl, inr, ◌⊎◌, ◌≡◌, sym, ◌∙◌, Option, some, List, ◌∷◌, arith}
use shard_db.Base.Result.{Result, ok}
use shard_db.Bytes.{Bytes}
use shard_db.Sql.{point_get_node, insert_node, project_node, filter_node, scan_node}
use shard_db.Sql.Parser.{
  SqlParser, Select, Insert, Statement, select_statement, insert_statement, parse_to_plan,
  row_values, column_names, build_insert_plan, build_select_plan,
}
use shard_db.Planner.Equality.{
  IsEquality, IsOther, equality_value-IsEquality, node_key-equality_value, equality_value-Found,
  find_key-First,
}
use shard_db.Planner.{
  plan_single, plan_broadcast, analyze, analyze_insert, analyze_select, find_key,
}

-- The statement text is an INSERT into the table whose first value is the literal key.
abbrev pub IsInsertOf :
    (P : SqlParser) → (Bytes → Result Bytes (Statement P)) → Bytes → Bytes → Bytes → Type 0
IsInsertOf P parse sql table key =
    (stmt : Insert P) × (value : P.Node) × (values : List P.Node) × (more : List (List P.Node))
    × (parse sql ≡ ok (insert_statement stmt))
    × (stmt.table ≡ table)
    × (stmt.rows ≡ some ((value ∷ values) ∷ more))
    × (P.as_sql_val value ≡ some key)

-- The statement text is a SELECT from the table whose WHERE clause compares a column with the literal
-- key.
abbrev pub IsLookupOf :
    (P : SqlParser) → (Bytes → Result Bytes (Statement P)) → Bytes → Bytes → Bytes → Type 0
IsLookupOf P parse sql table key =
    (stmt : Select P) × (source : P.Node) × (expr : P.Node) × (more : List (Option P.Node)) × (parse
        sql
      ≡ ok (select_statement stmt))
    × (stmt.from ≡ some source ∷ more)
    × (P.string source ≡ table)
    × (stmt.where_expr ≡ some expr)
    × IsEquality P expr key

-- Walk visits a node before the nodes below it.
abbrev pub IsPreorder : SqlParser → Type 0
IsPreorder P = (node : P.Node) → (below : List P.Node) × (P.walk_order node ≡ node ∷ below)

module _ (P : SqlParser) (parse : Bytes → Result Bytes (Statement P)) where
  lookup-routing :
      (sql table key : Bytes)
      → IsPreorder P
      → IsLookupOf P parse sql table key
      → (parse_to_plan P parse sql ≡ ok (point_get_node table key))
        × (analyze P parse sql ≡ ok (plan_single key))
  unfolding parse_to_plan build_select_plan analyze analyze_select find_key
  lookup-routing sql table key preorder (stmt, source, expr, more, parsed, from, name, filter, is) =
      let (below, order) = preorder expr in
      let eq = equality_value-IsEquality P expr key is in
      (
        ground (arith, parsed, from, name, filter, eq),
        ground (arith, parsed, filter, order, node_key-equality_value P expr, eq),
      )

  insert-routing :
      (sql table key : Bytes)
      → IsInsertOf P parse sql table key
      → ((columns vs : List Bytes) × (parse_to_plan P parse sql
            ≡ ok (insert_node table columns (key ∷ vs))))
        × (analyze P parse sql ≡ ok (plan_single key))
  unfolding parse_to_plan build_insert_plan row_values analyze analyze_insert
  insert-routing sql table key (stmt, value, values, more, parsed, name, rows, eq) = (
    (stmt.columns, row_values P values, ground (arith, parsed, name, rows, eq)),
    ground (arith, parsed, rows, eq),
  )

  -- If Walk visits a node before those below it: the INSERT of a row and the SELECT that compares a
  -- column with its first value are routed by the same key, the bytes of the literal, which is the
  -- first value of the insert's plan and the key of the lookup's plan, in the same table.
  pub analyze-parse_to_plan :
      (insert_sql select_sql table key : Bytes)
      → IsPreorder P
      → IsInsertOf P parse insert_sql table key
      → IsLookupOf P parse select_sql table key
      → ((columns vs : List Bytes) × (parse_to_plan P parse insert_sql
            ≡ ok (insert_node table columns (key ∷ vs))))
        × (parse_to_plan P parse select_sql ≡ ok (point_get_node table key))
        × (analyze P parse insert_sql ≡ analyze P parse select_sql)
        × (analyze P parse select_sql ≡ ok (plan_single key))
  analyze-parse_to_plan insert_sql select_sql table key preorder ins look =
      let i = insert-routing insert_sql table key ins in
      let l = lookup-routing select_sql table key preorder look in (i.0, l.0, i.1 ∙ sym l.1, l.1)

  -- How a SELECT with a WHERE clause is planned and routed.
  abbrev pub Planned : Bytes → P.Node → P.Node → Type 0
  Planned sql source expr =
      ((key : Bytes) × IsEquality P expr key
        × (parse_to_plan P parse sql ≡ ok (point_get_node (P.string source) key)))
      ⊎ (IsOther P expr
          × ((columns : List Bytes) × (parse_to_plan P parse sql
                ≡ ok (
                    project_node (filter_node (scan_node (P.string source)) (P.string expr))
                      columns))))

  abbrev pub Routed : Bytes → P.Node → Type 0
  Routed sql expr =
      ((before : List P.Node) × (node : P.Node) × (after : List P.Node) × (key : Bytes)
        × (P.walk_order expr ≡ before ++ node ∷ after)
        × All (IsOther P) before
        × IsEquality P node key
        × (analyze P parse sql ≡ ok (plan_single key)))
      ⊎ (All (IsOther P) (P.walk_order expr) × (analyze P parse sql ≡ ok plan_broadcast))

  -- A SELECT from a table with a WHERE clause: its plan is a point lookup exactly if the whole clause
  -- compares a column with a literal by =, and then the key is the literal, and else the filtered
  -- scan of the table. It goes to one shard if some node of the clause is such a comparison, with the
  -- literal of the first of them in the order of Walk as the routing key, and else to all shards.
  pub parse_to_plan-analyze :
      (sql : Bytes) (stmt : Select P) (source expr : P.Node) (more : List (Option P.Node))
      → parse sql ≡ ok (select_statement stmt)
      → stmt.from ≡ some source ∷ more
      → stmt.where_expr ≡ some expr
      → Planned sql source expr × Routed sql expr
  unfolding parse_to_plan build_select_plan analyze analyze_select
  parse_to_plan-analyze sql stmt source expr more parsed from filter = (
    elim (equality_value-Found P expr) [
      | inl (key, is, e) ↦ inl (key, is, ground (arith, parsed, from, filter, e))
      | inr (other, e) ↦
          inr (other, (column_names P stmt.select_exprs, ground (arith, parsed, from, filter, e)))
    ],
    elim (find_key-First P (P.walk_order expr)) [
      | inl (before, node, after, key, split, others, is, e) ↦
          inl (before, node, after, key, split, others, is, ground (arith, parsed, filter, e))
      | inr (others, e) ↦ inr (others, ground (arith, parsed, filter, e))
    ],
  )
