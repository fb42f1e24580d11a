-- ===== src/Shard/Counters.antt =====
-- cmd/shard-node/main.go: the counters of internal/metrics that Apply and the handler of /execute add to.
use shard_db.Base.{if◌then◌else◌, drop}
use shard_db.Base.Result.{ok, err}
use shard_db.Bytes.{Bytes, codes}
use shard_db.Metrics.{Registry, inc}
use shard_db.Shard.{Parsers}
use shard_db.Shard.Execute.{ExecuteResponse, rows_response, text_response}
use shard_db.Strings.{has_prefix}

-- Apply: a statement that is parsed; no other prefix that it tests starts like this one
unfoldable pub count_entry : Parsers → Bytes → Registry → Registry
count_entry p data_ counters =
    if has_prefix data_ (codes "SQL:")
    then elim (p.parse_to_plan (drop 4 data_)) [
      | err e ↦ counters
      | ok plan ↦ inc (codes "ops_insert") counters
    ]
    else counters

-- /execute: the counter that its response names
unfoldable pub count_execute : ExecuteResponse → Registry → Registry
count_execute (rows_response rows name) counters = inc name counters
count_execute (text_response body) counters = counters
