-- ===== src/Proxy/Sessions.antt =====
-- A session of two rows at a proxy that has just started, and the theorem at it.
use shard_db.Base.{◌≡◌, refl, true, false, none, some, List, [], ◌∷◌, ◌++◌, arith}
use shard_db.Base.Result.{Result, ok, err}
use shard_db.Bytes.{Bytes, codes, bytes_equal}
use shard_db.Cluster.{Cluster, Wire, deliver_all, oneshot_ops}
use shard_db.Cluster.OnePhase.{AllOrNothing}
use shard_db.Decimal.{format_decimal}
use shard_db.Proxy.{text, Outside, new_proxy}
use shard_db.Proxy.Session.{shard_one, session-AllOrNothing}
use shard_db.Proxy.Requests.{Session, Sent, Insert, session}
use shard_db.Shard.{Req}
use shard_db.Sql.{unsupported}
use shard_db.Sql.Executor.{row_key}
use shard_db.Sql.Parser.{
  SqlParser, Statement, insert_statement, parse_to_plan, build_insert_plan, row_values,
}
use shard_db.Store.Abstract.View.{view}
use shard_db.Strings.{to_upper, trim_space, trim_left, trim_right}
use shard_db.Tree.SortedList.{sorted_list}
use shard_db.Txn.{WriteIntent, oneshot, new_coordinator}

-- Expressions are literals.
abbrev parser : SqlParser
parser = record {
  Node = Bytes;
  string = λ node. node;
  as_comparison = λ node. none;
  is_col_name = λ node. false;
  as_sql_val = λ node. some node;
  walk_order = λ node. node ∷ [];
}

-- A text of two bytes is the INSERT of them.
abbrev parse : Bytes → Result Bytes (Statement parser)
parse (k ∷ (v ∷ [])) = ok (
    insert_statement
      (record { table = codes "t"; columns = []; rows = some (((k ∷ []) ∷ (v ∷ []) ∷ []) ∷ []) }))
parse _ = err []

abbrev outside : Outside parser
outside = record {
  parse = parse;
  post = λ addr sql. ok (codes "OK");
  unmarshal_rows = λ body. none;
  arrival = λ results. results;
  network = record {
    responds = λ log m. true;
    prepare_order = λ groups. groups;
    commit_order = λ groups. groups;
  };
}

abbrev meta_addr : Bytes
meta_addr = codes "http://localhost:8080"

abbrev id : Bytes
id = codes "txn-7"

abbrev sent : Bytes → Bytes → Sent
sent sql txn = record {
  now = 7;
  start = 8;
  request = record { sql = sql; txn = txn; routing_key = [] };
}

abbrev row : Bytes → Bytes → Insert
row k v = record {
  sent = sent (k ++ v) id;
  table = codes "t";
  columns = [];
  raw_key = k;
  val = v;
  more = [];
}

abbrev low : WriteIntent
low = record { key = codes "t:b"; value = codes "1" }

abbrev high : WriteIntent
high = record { key = codes "t:x"; value = codes "2" }

abbrev rows : List Insert
rows = row (codes "b") (codes "1") ∷ row (codes "x") (codes "2") ∷ []

-- JSON as far as the batch of the two rows goes.
abbrev batch : Req
batch = record {
  txn_id = id;
  ts = 7;
  ops =
      record { key = codes "t:b"; val = codes "1" }
      ∷ record { key = codes "t:x"; val = codes "2" }
      ∷ [];
}

abbrev wire : Wire
wire = record {
  parsers = record { unmarshal = λ body. batch; parse_to_plan = λ sql. err unsupported };
  marshal = λ req. [];
}

-- Another transaction holds the second row.
abbrev nodes : Cluster sorted_list
nodes addr = record {
  tree = [];
  locks = (codes "t:x", record { txn_id = codes "txn-1"; value = codes "0" }) ∷ [];
}

abbrev whole : Session
whole =
    session outside (sent (codes "begin") []) rows (sent (codes "commit") id) (new_proxy meta_addr)

session-AllOrNothing_example :
    (whole.begun ≡ text (codes "TxnID:txn-7"))
    × (whole.buffered ≡ text (codes "Buffered Write OK") ∷ text (codes "Buffered Write OK") ∷ [])
    × (whole.ended ≡ text (codes "COMMIT OK"))
    × (whole.log ≡ oneshot shard_one (low ∷ high ∷ []) id 7 ∷ [])
    × AllOrNothing id 7
        (codes "t:b")
        (low ∷ high ∷ [])
        (view (nodes shard_one))
        (view (deliver_all wire whole.log nodes shard_one))
unfolding new_proxy new_coordinator to_upper trim_space format_decimal row_key parse_to_plan
    build_insert_plan row_values trim_left trim_right oneshot_ops bytes_equal
session-AllOrNothing_example =
    session-AllOrNothing outside wire nodes meta_addr (codes "t:b") (sent (codes "begin") [])
      (sent (codes "commit") id) (row (codes "b") (codes "1")) (row (codes "x") (codes "2") ∷ [])
      (new_proxy meta_addr) refl refl
      ((refl, (refl, refl, refl), refl), ((refl, (refl, refl, refl), refl), tt)) refl refl refl refl
      refl (omega arith) (record { sorted = tt; versions = tt })
