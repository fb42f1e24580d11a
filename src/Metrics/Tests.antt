-- ===== src/Metrics/Tests.antt =====
-- A counter that wraps around.
use shard_db.Base.{◌-◌, ◌^◌, ◌≡◌, refl, none, [], ◌∷◌}
use shard_db.Base.Result.{ok, err}
use shard_db.Bytes.{codes, bytes_equal}
use shard_db.Dict
use shard_db.Metrics.{Registry, load, get_counter, inc}
use shard_db.Shard.{Parsers, sql_entry}
use shard_db.Shard.Counters.{count_entry, count_execute}
use shard_db.Shard.Execute.{rows_response}
use shard_db.Sql.{unsupported, scan_node}
use shard_db.Strings.{has_prefix}

abbrev registry : Registry
registry = (codes "ops_insert", 2 ^ 64 - 1) ∷ []

run-inc : get_counter (codes "ops_insert") (inc (codes "ops_insert") registry) ≡ 0
unfolding get_counter inc load Dict.get Dict.put bytes_equal
run-inc = refl

abbrev parsers : Parsers
parsers = record {
  unmarshal = λ body. record { txn_id = []; ts = 0; ops = [] };
  parse_to_plan = λ sql. elim sql [ [] ↦ err unsupported | c ∷ cs ↦ ok (scan_node (c ∷ cs)) ];
}

-- A statement that is parsed is counted, also where it is no INSERT; the others are not.
run-count_entry : count_entry parsers (sql_entry (codes "SELECT")) [] ≡ (codes "ops_insert", 1) ∷ []
unfolding count_entry sql_entry has_prefix inc load Dict.get Dict.put
run-count_entry = refl

run-count_entry_refused : count_entry parsers (sql_entry []) [] ≡ []
unfolding count_entry sql_entry has_prefix
run-count_entry_refused = refl

run-count_execute :
    count_execute (rows_response none (codes "ops_select")) [] ≡ (codes "ops_select", 1) ∷ []
unfolding count_execute inc load Dict.get Dict.put
run-count_execute = refl
