-- ===== src/Proxy/Tests.antt =====
-- Statements of one table with literals, and the theorems of the SQL layer, the planner and the proxy at
-- them.
use shard_db.Base.{
  ◌≡◌, refl, Bool, true, false, Option, none, some, List, [], ◌∷◌, if◌then◌else◌, leb,
}
use shard_db.Base.Result.{Result, ok, err}
use shard_db.Bytes.{Bytes, codes}
use shard_db.Planner.{plan_single, analyze}
use shard_db.Planner.Routing.{Planned, Routed, analyze-parse_to_plan, parse_to_plan-analyze}
use shard_db.Planner.Equality.{IsEquality}
use shard_db.Sql.{point_get_node, insert_node}
use shard_db.Sql.Parser.{
  SqlParser, Statement, Select, Insert, select_statement, insert_statement, parse_to_plan,
  star_expr,
}

data Node : Type 0 where
  comparison : Bytes → Node → Node → Node
  column : Bytes → Node
  literal : Bytes → Node

node_string : Node → Bytes
node_string (comparison operator left right) = operator
node_string (column name) = name
node_string (literal val) = val

node_comparison : Node → Option (Bytes × Node × Node)
node_comparison (comparison operator left right) = some (operator, left, right)
node_comparison (column name) = none
node_comparison (literal val) = none

node_column : Node → Bool
node_column (comparison operator left right) = false
node_column (column name) = true
node_column (literal val) = false

node_literal : Node → Option Bytes
node_literal (comparison operator left right) = none
node_literal (column name) = none
node_literal (literal val) = some val

node_walk : Node → List Node
node_walk (comparison operator left right) = comparison operator left right ∷ left ∷ right ∷ []
node_walk (column name) = column name ∷ []
node_walk (literal val) = literal val ∷ []

abbrev parser : SqlParser
parser = record {
  Node = Node;
  string = node_string;
  as_comparison = node_comparison;
  is_col_name = node_column;
  as_sql_val = node_literal;
  walk_order = node_walk;
}

abbrev where_node : Node
where_node = comparison (codes "=") (column (codes "k")) (literal (codes "u1"))

abbrev lookup : Select parser
lookup = record {
  from = some (column (codes "users")) ∷ [];
  where_expr = some where_node;
  select_exprs = star_expr ∷ [];
}

abbrev row : List Node
row = literal (codes "u1") ∷ literal (codes "Alice") ∷ []

abbrev insert : Insert parser
insert = record { table = codes "users"; columns = []; rows = some (row ∷ []) }

-- Texts that start with an S are the lookup, the others the insert.
parse : Bytes → Result Bytes (Statement parser)
parse [] = err []
parse (c ∷ cs) = if leb b'S' c then ok (select_statement lookup) else ok (insert_statement insert)

preorder : (node : Node) → (below : List Node) × (node_walk node ≡ node ∷ below)
unfolding node_walk
preorder (comparison operator left right) = (left ∷ right ∷ [], refl)
preorder (column name) = ([], refl)
preorder (literal val) = ([], refl)

where_node-IsEquality : IsEquality parser where_node (codes "u1")
unfolding node_comparison node_column node_literal
where_node-IsEquality = record {
  left = column (codes "k");
  right = literal (codes "u1");
  compares = refl;
  column = refl;
  literal = refl;
}

analyze-parse_to_plan_example :
    ((columns vs : List Bytes) × (parse_to_plan parser parse (codes "INSERT")
        ≡ ok (insert_node (codes "users") columns (codes "u1" ∷ vs))))
    × (parse_to_plan parser parse (codes "SELECT")
        ≡ ok (point_get_node (codes "users") (codes "u1")))
    × (analyze parser parse (codes "INSERT") ≡ analyze parser parse (codes "SELECT"))
    × (analyze parser parse (codes "SELECT") ≡ ok (plan_single (codes "u1")))
unfolding parse node_literal node_string
analyze-parse_to_plan_example =
    analyze-parse_to_plan parser parse (codes "INSERT") (codes "SELECT") (codes "users")
      (codes "u1") preorder
      (insert, literal (codes "u1"), literal (codes "Alice") ∷ [], [], refl, refl, refl, refl)
      (
        lookup,
        column (codes "users"),
        where_node,
        [],
        refl,
        refl,
        refl,
        refl,
        where_node-IsEquality,
      )

-- The lookup is planned by its clause, and routed by the first equality in it.
parse_to_plan-analyze_example :
    Planned parser parse (codes "SELECT") (column (codes "users")) where_node
    × Routed parser parse (codes "SELECT") where_node
unfolding parse
parse_to_plan-analyze_example =
    parse_to_plan-analyze parser parse (codes "SELECT") lookup (column (codes "users")) where_node
      [] refl refl refl
