-- ===== src/Client/Scatter.antt =====
-- cmd/tools/verify_scatter/main.go: the client that reads a table whose rows lie on two shards.
use shard_db.Base.{Bool, true, false, ◌||◌, ◌&&◌, none, List, [], ◌∷◌, ◌++◌, if◌then◌else◌, map}
use shard_db.Base.Result.{ok, err}
use shard_db.Bytes.{Bytes, bytes_equal, codes}
use shard_db.Client.{Web, Session, print_line, pause, arrow, contains}
use shard_db.Decimal.{format_decimal}
use shard_db.Sql.{Row}
use shard_db.Strings.{join}

-- the test on a column
unfoldable pub shows : Bytes → Bytes → Bool
shows val_col expected =
    bytes_equal val_col expected
    || contains val_col (codes "," ++ expected)
    || contains val_col expected

-- the loop over the rows: does one of them have the value
unfoldable pub found : Bytes → List Row → Bool
unfolding shows
found expected [] = false
found expected ((k ∷ (val_col ∷ cols)) ∷ rows) = shows val_col expected || found expected rows
found expected (r ∷ rows) = found expected rows

abbrev format_bool : Bool → Bytes
format_bool true = codes "true"
format_bool false = codes "false"

-- a slice under the verb %v
abbrev format_slice : List Bytes → Bytes
format_slice parts = codes "[" ++ (join parts (codes " ") ++ codes "]")

-- the verdict on the rows
unfoldable pub verdict : List Row → Bytes
unfolding found
verdict rows =
    if found (codes "valA") rows && found (codes "valB") rows
    then codes "SUCCESS: Found both valA and valB from different shards!"
    else codes "FAILURE: Missing data. A="
      ++ (format_bool (found (codes "valA") rows)
          ++ (codes ", B="
              ++ (format_bool (found (codes "valB") rows)
                  ++ (codes ". Rows: " ++ format_slice (map format_slice rows)))))

module _ {W : Type 0} (web : Web W) where
  -- req; whatever its method is, http.Get sends a GET
  unfoldable pub get_request : Bytes → Bytes → Session W → Session W × Bytes
  get_request method url s =
      let (world, answer) = web.do_request (codes "GET") url none s.world in
      let s' = record s { world = world } in
      elim answer [
        | err e ↦ (print_line (codes "FAIL: " ++ (arrow method url ++ e)) s', [])
        | ok resp ↦ (print_line (arrow method url ++ format_decimal resp.status_code) s', resp.body)
      ]

  -- the request of a statement at a server
  abbrev statement : Bytes → Bytes → Bytes → Session W → Session W × Bytes
  statement method server sql =
      get_request method (server ++ (codes "?sql=" ++ web.query_escape sql))

  -- main
  unfoldable pub verify_scatter : Session W → Session W
  unfolding verdict get_request
  verify_scatter s0 =
      let proxy = codes "http://localhost:8080/execute" in
      let s1 = print_line (codes "1. Cleaning Cluster (Optional: We assume clean or append)") s0 in
      let s2 = print_line (codes "2. Inserting via Proxy (Shard 1)") s1 in
      let s3 = (statement (codes "GET") proxy (codes "INSERT INTO t VALUES (keyA, valA)") s2).0 in
      let s4 = print_line (codes "3. Inserting Direct to Shard 2 (Bypass Router)") s3 in
      let s5 =
        (statement (codes "POST") (codes "http://localhost:9002/execute")
          (codes "INSERT INTO t VALUES (keyB, valB)") s4).0 in
      let s6 = print_line (codes "4. SELECT keyA (Point Query)") (pause web 1000 s5) in
      let (s7, body_a) =
        statement (codes "GET") proxy (codes "SELECT * FROM t WHERE k = 'keyA'") s6 in
      let s8 = print_line (codes "Result A: " ++ body_a) s7 in
      let s9 = print_line (codes "5. SELECT * (Scatter-Gather)") s8 in
      let (s10, body_all) = statement (codes "GET") proxy (codes "SELECT * FROM t") s9 in
      let s11 = print_line (codes "Result All: " ++ body_all) s10 in
      print_line (verdict (web.unmarshal_rows body_all)) s11
