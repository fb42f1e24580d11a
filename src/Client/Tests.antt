-- ===== src/Client/Tests.antt =====
-- Runs of the clients.
use shard_db.Base.{ℕ, ◌≡◌, refl, List, [], ◌∷◌, ◌++◌}
use shard_db.Base.Result.{ok}
use shard_db.Bytes.{Bytes, codes, bytes_equal, put_uint, uint_from}
use shard_db.Decimal.{format_decimal}
use shard_db.Dict
use shard_db.Mvcc.{encode_key, decode_key}
use shard_db.Store.{prepare, commit, get_txn, run_gc, mvcc_get_locked, new_memory_store}
use shard_db.Tree.SortedList.{sorted_list}
use shard_db.Client.{Web, Session, print_line, pause, contains}
use shard_db.Client.Gc.{verify_gc}
use shard_db.Client.Migration.{verify_migration}
use shard_db.Client.Scatter.{verify_scatter, verdict}
use shard_db.Client.TwoPhase.{verify_2pc, verify_proxy_2pc}
use shard_db.Sql.{Row}
use shard_db.Strings.{has_prefix, trim_prefix, join}

run-verify_gc :
    verify_gc sorted_list
    ≡ codes "Initial State Created."
      ∷ codes "Running GC(25)..."
      ∷ codes "Deleted items: 1"
      ∷ codes "PASS: Version 10 is gone."
      ∷ codes "PASS: Version 20 remained."
      ∷ codes "PASS: Version 30 remained."
      ∷ []
unfolding verify_gc prepare commit get_txn run_gc mvcc_get_locked new_memory_store Dict.get Dict.put
    Dict.remove bytes_equal encode_key decode_key put_uint uint_from format_decimal
    shard_db.Tree.less shard_db.Store.visit_version shard_db.Store.delete_all
    shard_db.Store.gc_visit
run-verify_gc = refl

-- Servers that answer every request with the same response; what is sent is recorded.
abbrev same_answer : ℕ → Bytes → List Row → Web (List Bytes)
same_answer status body rows = record {
  do_request = λ method url data_ sent.
      (sent ++ url ∷ [], ok (record { status_code = status; body = body }));
  sleep = λ ms sent. sent;
  query_escape = λ text. text;
  unmarshal_rows = λ text. rows;
}

abbrev fresh : Session (List Bytes)
fresh = record { world = []; lines = [] }

abbrev last_line : List Bytes → Bytes
last_line [] = []
last_line (l ∷ []) = l
last_line (l ∷ (m ∷ ls)) = last_line (m ∷ ls)

-- An error of the second shard is longer than five bytes, and passes for its data.
run-verify_migration :
    last_line (verify_migration (same_answer 500 (codes "key is locked") []) fresh).lines
    ≡ codes "SUCCESS: Data migrated to S2!"
unfolding verify_migration print_line pause bytes_equal format_decimal
run-verify_migration = refl

run-verify_migration_short :
    last_line (verify_migration (same_answer 200 (codes "null") []) fresh).lines
    ≡ codes "FAIL: Export looks empty?"
unfolding verify_migration print_line pause bytes_equal format_decimal
run-verify_migration_short = refl

abbrev both_rows : List Row
both_rows = (codes "keyA" ∷ codes "keyA,valA" ∷ []) ∷ (codes "keyB" ∷ codes "keyB,valB" ∷ []) ∷ []

run-verify_scatter :
    last_line (verify_scatter (same_answer 200 (codes "rows") both_rows) fresh).lines
    ≡ codes "SUCCESS: Found both valA and valB from different shards!"
unfolding verify_scatter print_line pause bytes_equal format_decimal contains has_prefix
run-verify_scatter = refl

run-verify_scatter_one :
    verdict ((codes "keyA" ∷ codes "valA" ∷ []) ∷ (codes "valB" ∷ []) ∷ [])
    ≡ codes "FAILURE: Missing data. A=true, B=false. Rows: [[keyA valA] [valB]]"
unfolding verdict bytes_equal contains has_prefix join
run-verify_scatter_one = refl

run-verify_2pc :
    (verify_2pc (same_answer 200 (codes "OK") []) fresh).lines
    ≡ codes "1. Sending PREPARE..."
      ∷ codes
          "GET http://127.0.0.1:9001/txn/prepare?key=t:test2pc&val=myvalue&txn=txverify -> 200: OK"
      ∷ codes "2. Reading (Expect Locked)..."
      ∷ codes "GET http://127.0.0.1:9001/execute?sql=SELECT+*+FROM+t+WHERE+k='test2pc' -> 200: OK"
      ∷ codes "3. Sending COMMIT..."
      ∷ codes "GET http://127.0.0.1:9001/txn/commit?key=t:test2pc&txn=txverify&ts=2000 -> 200: OK"
      ∷ codes "4. Reading (Expect Success)..."
      ∷ codes "GET http://127.0.0.1:9001/execute?sql=SELECT+*+FROM+t+WHERE+k='test2pc' -> 200: OK"
      ∷ []
unfolding verify_2pc print_line pause format_decimal
run-verify_2pc = refl

-- Without a transaction id nothing more is sent; with one it goes along with the commit.
run-verify_proxy_2pc_refused : verify_proxy_2pc (same_answer 500 (codes "no") []) fresh ≡ record {
  world = codes "http://localhost:8080/execute?sql=BEGIN" ∷ [];
  lines =
      codes "1. BEGIN Transaction"
      ∷ codes "GET http://localhost:8080/execute?sql=BEGIN -> 500: no"
      ∷ codes "Failed to start txn"
      ∷ [];
}
unfolding verify_proxy_2pc print_line pause format_decimal has_prefix
run-verify_proxy_2pc_refused = refl

run-verify_proxy_2pc :
    (verify_proxy_2pc (same_answer 200 (codes "TxnID:7") []) fresh).world
    ≡ codes "http://localhost:8080/execute?sql=BEGIN"
      ∷ codes "http://localhost:8080/execute?txn=7&sql=INSERT INTO t VALUES (keyA, valA)"
      ∷ codes "http://localhost:8080/execute?txn=7&sql=INSERT INTO t VALUES (keyB, valB)"
      ∷ codes "http://localhost:8080/execute?sql=SELECT * FROM t&routing_key=keyA"
      ∷ codes "http://localhost:8080/execute?sql=COMMIT&txn=7"
      ∷ codes "http://localhost:8080/execute?sql=SELECT * FROM t&routing_key=keyA"
      ∷ []
unfolding verify_proxy_2pc print_line pause format_decimal has_prefix trim_prefix
run-verify_proxy_2pc = refl
