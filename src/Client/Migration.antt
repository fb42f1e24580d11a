-- ===== src/Client/Migration.antt =====
-- cmd/tools/verify_migration/main.go: the client that copies the data of one shard to another one.
use shard_db.Base.{Bool, ◌||◌, Option, none, some, [], ◌++◌, if◌then◌else◌, leb, ltb, length}
use shard_db.Base.Result.{ok, err}
use shard_db.Bytes.{Bytes, bytes_equal, codes}
use shard_db.Client.{Web, Session, print_line, pause, arrow, shown}
use shard_db.Decimal.{format_decimal}

-- the tests on the point lookup
unfoldable pub has_migrated : Bytes → Bool
has_migrated res =
    bytes_equal res (codes "[[\"ValM\"]]")
    || bytes_equal res (codes "[[\"KeyM,ValM\"]]")
    || ltb 5 (length res)

module _ {W : Type 0} (web : Web W) where
  -- req
  unfoldable pub request : Bytes → Bytes → Option Bytes → Session W → Session W × Bytes
  request method url body_data s =
      let (world, answer) = web.do_request method url body_data s.world in
      let s' = record s { world = world } in
      elim answer [
        | err e ↦ (print_line (codes "FAIL: " ++ (arrow method url ++ e)) s', [])
        | ok resp ↦
            if leb 400 resp.status_code
            then (print_line (codes "ERROR " ++ shown resp) s', resp.body)
            else (s', resp.body)
      ]

  -- from the ingest on
  unfoldable pub ingest_and_read : Bytes → Session W → Session W
  unfolding request has_migrated
  ingest_and_read export_json s0 =
      let s1 = print_line (codes "3. Ingest to S2") s0 in
      let s2 =
        (request (codes "POST") (codes "http://localhost:9002/debug/ingest") (some export_json)
          s1).0 in
      let s3 = print_line (codes "4. Verify S2 has Data (Direct Read)") s2 in
      let (s4, res) =
        request (codes "GET")
          (codes "http://localhost:9002/execute?sql="
            ++ web.query_escape (codes "SELECT * FROM t WHERE k='KeyM'"))
          none s3 in
      let s5 = print_line (codes "S2 Point Result: " ++ res) s4 in
      let (s6, res_scan) =
        request (codes "GET")
          (codes "http://localhost:9002/execute?sql=" ++ web.query_escape (codes "SELECT * FROM t"))
          none s5 in
      let s7 = print_line (codes "S2 Scan Result: " ++ res_scan) s6 in
      let (s8, dump) = request (codes "GET") (codes "http://localhost:9002/debug/export") none s7 in
      let s9 = print_line (codes "S2 Dump: " ++ dump) s8 in
      if has_migrated res
      then print_line (codes "SUCCESS: Data migrated to S2!") s9
      else print_line (codes "FAILURE: Data not found on S2.") s9

  -- main
  unfoldable pub verify_migration : Session W → Session W
  unfolding request ingest_and_read
  verify_migration s0 =
      let s1 = print_line (codes "1. Insert KeyM to S1 (via Proxy)") s0 in
      let s2 =
        (request (codes "POST")
          (codes "http://localhost:9001/execute?sql="
            ++ web.query_escape (codes "INSERT INTO t VALUES ('KeyM', 'ValM')"))
          none s1).0 in
      let s3 = print_line (codes "2. Export from S1") (pause web 500 s2) in
      let (s4, export_json) =
        request (codes "GET") (codes "http://localhost:9001/debug/export") none s3 in
      let s5 =
        print_line
          (codes "Exported Data Length: "
            ++ (format_decimal (length export_json) ++ codes " bytes"))
          s4 in
      if ltb (length export_json) 10
      then print_line (codes "FAIL: Export looks empty?") s5
      else ingest_and_read export_json s5
