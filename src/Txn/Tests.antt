-- ===== src/Txn/Tests.antt =====
-- Transactions on two shards, and the theorems at them.
use shard_db.Base.{◌≡◌, refl, Bool, true, false, none, some, List, [], ◌∷◌, if◌then◌else◌}
use shard_db.Base.Result.{ok, err}
use shard_db.Bytes.{codes, bytes_equal, bytes_ltb}
use shard_db.Dict
use shard_db.Dict.{Dict}
use shard_db.Router.{Router, locate, new_router, shard_addr, get_shard_id}
use shard_db.Router
use shard_db.Txn
use shard_db.Txn.{
  Coordinator, Transaction, WriteIntent, Env, Message, prepare, commit, abort, oneshot, TxnError,
  active, committed, aborted, not_active, prepare_failed, abort_messages, group_by_shard,
  commit_txn, commit_start, commit_rest, abort_txn, new_coordinator, begin, add_write, set_state,
}
use shard_db.Txn.Requests.{aborts}
use shard_db.Txn.Group.{get-group_by_shard}
use shard_db.Txn.Verdict.{Verdict, commit_txn-Verdict}
use shard_db.Txn.State.{Decided, abort_txn-commit_txn}
use shard_db.Txn.Overlap.{commit_start-commit_rest}

-- Keys below "m" belong to shard 1, the others to shard 2.
abbrev routes : Router
routes = record {
  meta_url = codes "http://localhost:8080";
  ranges =
      record { start_key = none; end_key = some (codes "m"); shard_id = 1 }
      ∷ record { start_key = some (codes "m"); end_key = none; shard_id = 2 }
      ∷ [];
  shard_addrs = (1, codes "a1") ∷ (2, codes "a2") ∷ [];
}

abbrev low : WriteIntent
low = record { key = codes "b"; value = codes "1" }

abbrev high : WriteIntent
high = record { key = codes "x"; value = codes "2" }

abbrev low_too : WriteIntent
low_too = record { key = codes "c"; value = codes "3" }

abbrev both : List WriteIntent
both = low ∷ high ∷ low_too ∷ []

abbrev txn : Transaction
txn = record { id = codes "txn-7"; state = active; start_time = 8; writes = both }

abbrev coordinator : Coordinator
coordinator = record { transactions = (codes "txn-7", txn) ∷ []; router = routes }

-- The transaction is what Begin and AddWrite build.
built :
    let (c1, id) = begin 7 8 (new_coordinator routes) in
    let (c2, r2) = add_write id (codes "b") (codes "1") c1 in
    let (c3, r3) = add_write id (codes "x") (codes "2") c2 in
    (add_write id (codes "c") (codes "3") c3 ≡ (coordinator, ok tt))
unfolding begin new_coordinator add_write Dict.get Dict.put shard_db.Decimal.format_decimal
    bytes_equal
built = refl

-- A network that refuses to prepare the key "x".
abbrev answer_but_x : Message → Bool
answer_but_x (prepare shard key value id) = if bytes_equal key (codes "x") then false else true
answer_but_x (commit shard key id ts) = true
answer_but_x (abort shard key id) = true
answer_but_x (oneshot shard ws id ts) = true

abbrev refuses : Env
refuses = record {
  responds = λ log m. answer_but_x m;
  prepare_order = λ groups. groups;
  commit_order = λ groups. groups;
}

abbrev accepts : Env
accepts = record refuses { responds = λ log m. true }

get-group_by_shard_example :
    Dict.get (codes "a1") (group_by_shard routes both []) ≡ some (low ∷ low_too ∷ [])
unfolding locate get_shard_id Router.scan_ranges Router.contains shard_addr bytes_equal bytes_ltb
get-group_by_shard_example = get-group_by_shard routes (codes "a1") both

commit_txn-Verdict_example :
    Verdict refuses 9
      (codes "txn-7")
      txn
      (group_by_shard routes both [])
      coordinator
      []
      (commit_txn refuses 9 (codes "txn-7") coordinator [])
unfolding Dict.get group_by_shard locate get_shard_id Router.scan_ranges Router.contains shard_addr
    Dict.put bytes_equal bytes_ltb
commit_txn-Verdict_example =
    commit_txn-Verdict refuses 9 (codes "txn-7") txn coordinator [] refl refl refl

-- The late write has the key "d".
abbrev late : List WriteIntent
late = low ∷ high ∷ low_too ∷ record { key = codes "d"; value = codes "4" } ∷ []

commit_start-commit_rest_example :
    let (c', added) = add_write (codes "txn-7") (codes "d") (codes "4") coordinator in
    let first = commit_rest accepts 9 (codes "txn-7") both c' [] in
    (commit_start (codes "txn-7") coordinator ≡ ok both)
    × (added ≡ ok tt)
    × (commit_start (codes "txn-7") c' ≡ ok late)
    × (first.0.1 ≡ (commit_rest accepts 9 (codes "txn-7") both coordinator []).0.1)
    × (Dict.get (codes "txn-7") first.0.0.transactions
        ≡ some (record txn { state = committed; writes = late }))
    × ((commit_start (codes "txn-7") first.0.0 ≡ err not_active)
        × (add_write (codes "txn-7") (codes "d") (codes "4") first.0.0
            ≡ (first.0.0, err not_active)))
    × Decided
        (codes "txn-7")
        (record txn { state = committed; writes = late })
        (commit_rest accepts 10 (codes "txn-7") late first.0.0 first.0.1)
unfolding Dict.get commit_rest Txn.commit_groups Txn.commit_two_phase Txn.prepare_all
    Txn.prepare_intents bytes_equal group_by_shard Dict.put locate bytes_ltb get_shard_id
    Router.scan_ranges Router.contains shard_addr add_write
commit_start-commit_rest_example =
    commit_start-commit_rest accepts 9 10 (codes "txn-7") (codes "d") (codes "4") txn low
      (high ∷ low_too ∷ []) coordinator [] refl refl refl refl

abort_txn-commit_txn_example :
    let c = (commit_txn accepts 9 (codes "txn-7") coordinator []).0.0 in
    let r = abort_txn (codes "txn-7") c [] in
    (r.1 ≡ ok tt)
    × (Dict.get (codes "txn-7") r.0.0.transactions ≡ some (record txn { state = aborted }))
    × (r.0.1 ≡ aborts c.router (codes "txn-7") both)
unfolding Dict.get commit_txn Txn.commit_groups Txn.commit_two_phase Txn.prepare_all
    Txn.prepare_intents bytes_equal group_by_shard Dict.put locate bytes_ltb get_shard_id
    Router.scan_ranges Router.contains shard_addr
abort_txn-commit_txn_example =
    abort_txn-commit_txn accepts 9 (codes "txn-7") txn low (high ∷ low_too ∷ []) coordinator [] []
      refl refl refl refl
