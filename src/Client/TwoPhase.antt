-- ===== src/Client/TwoPhase.antt =====
-- cmd/tools/verify_2pc/main.go and cmd/tools/verify_proxy_2pc/main.go: the clients that run one
-- transaction, at a shard and at the proxy.
use shard_db.Base.{none, [], ◌++◌, if◌then◌else◌, not}
use shard_db.Base.Result.{ok, err}
use shard_db.Bytes.{Bytes, codes}
use shard_db.Client.{Web, Session, print_line, pause, arrow, shown}
use shard_db.Strings.{has_prefix, trim_prefix}

module _ {W : Type 0} (web : Web W) where
  -- req of verify_2pc
  unfoldable pub fetch : Bytes → Bytes → Session W → Session W
  fetch method url s =
      let (world, answer) = web.do_request (codes "GET") url none s.world in
      let s' = record s { world = world } in
      elim answer [
        | err e ↦ print_line (method ++ (codes " " ++ (url ++ (codes " -> Error: " ++ e)))) s'
        | ok resp ↦ print_line (arrow method url ++ shown resp) s'
      ]

  -- main of verify_2pc
  unfoldable pub verify_2pc : Session W → Session W
  unfolding fetch
  verify_2pc s0 =
      let shard = codes "http://127.0.0.1:9001" in
      let select = shard ++ codes "/execute?sql=SELECT+*+FROM+t+WHERE+k='test2pc'" in
      let s1 = print_line (codes "1. Sending PREPARE...") s0 in
      let s2 =
        fetch (codes "GET") (shard ++ codes "/txn/prepare?key=t:test2pc&val=myvalue&txn=txverify")
          s1 in
      let s3 = print_line (codes "2. Reading (Expect Locked)...") (pause web 1000 s2) in
      let s4 = fetch (codes "GET") select s3 in
      let s5 = print_line (codes "3. Sending COMMIT...") s4 in
      let s6 =
        fetch (codes "GET") (shard ++ codes "/txn/commit?key=t:test2pc&txn=txverify&ts=2000") s5 in
      let s7 = print_line (codes "4. Reading (Expect Success)...") (pause web 1000 s6) in
      fetch (codes "GET") select s7

  -- req of verify_proxy_2pc
  unfoldable pub fetch_body : Bytes → Bytes → Session W → Session W × Bytes
  fetch_body method url s =
      let (world, answer) = web.do_request (codes "GET") url none s.world in
      let s' = record s { world = world } in
      elim answer [
        | err e ↦ (print_line (codes "FAIL: " ++ (arrow method url ++ e)) s', [])
        | ok resp ↦ (print_line (arrow method url ++ shown resp) s', resp.body)
      ]

  abbrev proxy : Bytes
  proxy = codes "http://localhost:8080/execute"

  -- the steps of the transaction that has begun
  unfoldable pub run_txn : Bytes → Session W → Session W
  unfolding fetch_body
  run_txn txn_id s0 =
      let insert = (λ (sql : Bytes).
        proxy ++ (codes "?txn=" ++ (txn_id ++ (codes "&sql=" ++ web.query_escape sql)))) in
      let select =
        proxy
        ++ (codes "?sql="
            ++ (web.query_escape (codes "SELECT * FROM t") ++ codes "&routing_key=keyA")) in
      let s1 = print_line (codes "Started Txn: " ++ txn_id) s0 in
      let s2 = print_line (codes "2. INSERT A") s1 in
      let s3 =
        (fetch_body (codes "GET") (insert (codes "INSERT INTO t VALUES (keyA, valA)")) s2).0 in
      let s4 = print_line (codes "3. INSERT B") s3 in
      let s5 =
        (fetch_body (codes "GET") (insert (codes "INSERT INTO t VALUES (keyB, valB)")) s4).0 in
      let s6 =
        print_line
          (codes
            "4. SELECT A (Should fail/empty or old value if Isolation works? Our Read doesn't check lock yet?)")
          s5 in
      let s7 = (fetch_body (codes "GET") select s6).0 in
      let s8 = print_line (codes "5. COMMIT") s7 in
      let s9 = (fetch_body (codes "GET") (proxy ++ (codes "?sql=COMMIT&txn=" ++ txn_id)) s8).0 in
      let s10 = print_line (codes "6. SELECT A (Should succeed)") (pause web 1000 s9) in
      (fetch_body (codes "GET") select s10).0

  -- main of verify_proxy_2pc
  unfoldable pub verify_proxy_2pc : Session W → Session W
  unfolding fetch_body run_txn
  verify_proxy_2pc s0 =
      let s1 = print_line (codes "1. BEGIN Transaction") s0 in
      let (s2, body) = fetch_body (codes "GET") (proxy ++ codes "?sql=BEGIN") s1 in
      if not (has_prefix body (codes "TxnID:"))
      then print_line (codes "Failed to start txn") s2
      else run_txn (trim_prefix body (codes "TxnID:")) s2
