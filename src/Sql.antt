-- ===== src/Sql.antt =====
-- internal/sql: statements become plans (Parser), and plans run on a store (Executor).
pub mod Parser
pub mod Executor
mod Tests
use shard_db.Base.{ℕ, Bool, Option, none, some, List, [], ◌∷◌}
use shard_db.Base.Result.{Result, ok, err}
use shard_db.Bytes.{Bytes}
use shard_db.Store.{StoreError}

-- The plan nodes of internal/sql/plan.go.
pub data PlanNode : Type 0 where
  scan_node : Bytes → PlanNode
  point_get_node : Bytes → Bytes → PlanNode
  insert_node : Bytes → List Bytes → List Bytes → PlanNode
  project_node : PlanNode → List Bytes → PlanNode
  filter_node : PlanNode → Bytes → PlanNode

-- Children
unfoldable pub children : PlanNode → List PlanNode
children (scan_node table) = []
children (point_get_node table key) = []
children (insert_node table columns values) = []
children (project_node input columns) = input ∷ []
children (filter_node input expr) = input ∷ []

pub data SqlError : Type 0 where
  parse_error : Bytes → SqlError
  unsupported : SqlError
  no_from : SqlError
  complex_from : SqlError
  insert_from_select : SqlError
  unknown_node : SqlError
  engine_error : StoreError → SqlError

abbrev pub Row : Type 0
Row = List Bytes
