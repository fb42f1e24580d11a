-- ===== src/Proxy.antt =====
-- cmd/proxy/main.go: the handler of /execute. The requests that it forwards to shards are answered by a
-- parameter, and so are the statements that sqlparser reads. Letters and spaces are those of ASCII.
pub mod Buffer
pub mod Requests
pub mod Session
mod Tests
mod Sessions
use shard_db.Base.{
  ℕ, ◌+◌, ◌-◌, Bool, true, false, not, ◌&&◌, ◌||◌, Option, none, some, List, [], ◌∷◌, ◌++◌, ◌==◌,
  leb, map, if◌then◌else◌,
}
use shard_db.Base.Result.{Result, ok, err}
use shard_db.Bytes.{Bytes, bytes_equal, codes}
use shard_db.Metrics.{Registry, inc}
use shard_db.Planner.{Plan, plan_single, plan_broadcast, analyze}
use shard_db.Router.{new_router, get_shard_id, shard_addr}
use shard_db.Sql.{PlanNode, insert_node, SqlError, Row}
use shard_db.Sql.Parser.{SqlParser, Statement, parse_to_plan}
use shard_db.Strings.{to_upper, trim_space}
use shard_db.Txn.{
  new_coordinator, Coordinator, Env, Message, TxnError, begin, commit_txn, abort_txn, add_write,
}

-- The query parameters; a missing one is empty. `sql` is the body where the parameter is empty.
pub record Request : Type 0 where
  pub sql : Bytes
  pub txn : Bytes
  pub routing_key : Bytes

pub data ProxyError : Type 0 where
  no_txn_param : ProxyError
  commit_failed : TxnError → ProxyError
  proxy_parse_error : SqlError → ProxyError
  write_failed : TxnError → ProxyError
  forward_failed : Bytes → ProxyError

-- A response with status 200 and a text or rows as JSON (`none` is null), or an error with its status.
pub data Response : Type 0 where
  text : Bytes → Response
  json_rows : Option (List Row) → Response
  http_error : ProxyError → ℕ → Response

-- What a shard's goroutine puts on the channel.
pub record ShardResult : Type 0 where
  pub shard_id : ℕ
  pub rows : List Row
  pub failed : Bool

-- What surrounds the handler: sqlparser.Parse; the HTTP request of ForwardRequest at an address, with
-- the error that it returns; json.Unmarshal into rows; the order in which results arrive.
pub record Outside (P : SqlParser) : Type 0 where
  pub parse : Bytes → Result Bytes (Statement P)
  pub post : Bytes → Bytes → Result Bytes Bytes
  pub unmarshal_rows : Bytes → Option (List Row)
  pub arrival : List ShardResult → List ShardResult
  pub network : Env

module _ {P : SqlParser} (o : Outside P) where
  -- ForwardRequest of internal/router/router.go
  unfoldable pub forward_request : ℕ → Bytes → Coordinator → Result Bytes Bytes
  forward_request shard_id sql c = elim (shard_addr shard_id c.router.shard_addrs) [
    | none ↦ err (codes "unknown shard")
    | some addr ↦ o.post addr sql
  ]

  -- the goroutine of one shard
  unfoldable pub query_shard : Bytes → Coordinator → ℕ → ShardResult
  query_shard sql c id = elim (forward_request id sql c) [
    | err e ↦ record { shard_id = id; rows = []; failed = true }
    | ok resp ↦
        if bytes_equal (trim_space resp) (codes "OK")
        then record { shard_id = id; rows = []; failed = false }
        else elim (o.unmarshal_rows resp) [
          | none ↦ record { shard_id = id; rows = []; failed = false }
          | some rows ↦ record { shard_id = id; rows = rows; failed = false }
        ]
  ]

  -- the loop over the results
  unfoldable pub gather : List ShardResult → List Row
  gather [] = []
  gather (res ∷ results) =
      let rest = gather results in if res.failed then rest else res.rows ++ rest

  abbrev rows_or_null : List Row → Option (List Row)
  rows_or_null [] = none
  rows_or_null (r ∷ rs) = some (r ∷ rs)

  -- the planner and the routing of a statement that is not buffered
  unfoldable pub route : Request → Coordinator → Response
  route r c =
      let planned : Plan = elim (analyze P o.parse r.sql) [ err e ↦ plan_broadcast | ok p ↦ p ] in
      let pln : Plan =
        if bytes_equal r.routing_key [] then planned else plan_single r.routing_key in
      elim pln [
        | plan_broadcast ↦
            json_rows
              (rows_or_null (gather (o.arrival (map (query_shard r.sql c) (1 ∷ 2 ∷ 3 ∷ [])))))
        | plan_single routing_key ↦
            let key = if bytes_equal routing_key [] then codes "default" else routing_key in
            elim (forward_request (get_shard_id key c.router) r.sql c) [
              | err e ↦ http_error (forward_failed e) 500
              | ok resp ↦ text resp
            ]
      ]

  -- from the parsed plan on: an INSERT of two values or more inside a transaction is buffered
  unfoldable pub execute_plan : PlanNode → Request → Coordinator → Coordinator × Response
  execute_plan (insert_node table columns (raw_key ∷ (val ∷ more))) r c =
      let buffered = add_write r.txn (table ++ (codes ":" ++ raw_key)) val c in
      if bytes_equal r.txn [] then (c, route r c) else (
        buffered.0,
        elim buffered.1 [
          | err e ↦ http_error (write_failed e) 500
          | ok _ ↦ text (codes "Buffered Write OK")
        ],
      )
  execute_plan plan r c = (c, route r c)

  -- the handler, with the readings of the clock that Begin or Commit makes
  unfoldable pub handle_execute :
      ℕ → ℕ → Request → Coordinator → List Message → (Coordinator × List Message) × Response
  handle_execute now start r c log =
      let upper_params = to_upper (trim_space r.sql) in
      if bytes_equal upper_params (codes "BEGIN")
      then (let (c', new_id) = begin now start c in ((c', log), text (codes "TxnID:" ++ new_id)))
      else if bytes_equal upper_params (codes "COMMIT")
      then (if bytes_equal r.txn []
          then ((c, log), http_error no_txn_param 400)
          else (let (after, result) = commit_txn o.network now r.txn c log in
              (
                after,
                elim result [
                  | err e ↦ http_error (commit_failed e) 500
                  | ok _ ↦ text (codes "COMMIT OK")
                ],
              )))
      else if bytes_equal upper_params (codes "ROLLBACK")
      then (if bytes_equal r.txn []
          then ((c, log), http_error no_txn_param 400)
          else ((abort_txn r.txn c log).0, text (codes "ROLLBACK OK")))
      else elim (parse_to_plan P o.parse r.sql) [
        | err e ↦ ((c, log), http_error (proxy_parse_error e) 400)
        | ok plan ↦ let (c', response) = execute_plan plan r c in ((c', log), response)
      ]

  -- the handler with its counter
  unfoldable pub serve_execute :
      ℕ
      → ℕ
      → Request
      → Coordinator
      → List Message
      → Registry
      → Registry × ((Coordinator × List Message) × Response)
  unfolding handle_execute
  serve_execute now start r c log counters =
      (inc (codes "requests_total") counters, handle_execute now start r c log)

-- main up to its handlers, with the flag "meta": the coordinator on a new router
unfoldable pub new_proxy : Bytes → Coordinator
new_proxy meta_addr = new_coordinator (new_router meta_addr)
