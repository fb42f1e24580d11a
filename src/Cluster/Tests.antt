-- ===== src/Cluster/Tests.antt =====
-- A transaction on two shards, one of which holds another transaction's lock, and the theorems at it.
use shard_db.Base.{
  ◌≡◌, refl, Bool, true, false, some, none, List, [], ◌∷◌, ◌++◌, inl, inr, arith, if◌then◌else◌,
}
use shard_db.Base.Result.{ok, err}
use shard_db.Bytes.{Bytes, codes, bytes_equal, bytes_ltb}
use shard_db.Dict
use shard_db.Router
use shard_db.Router.{Router, locate, shard_addr, get_shard_id}
use shard_db.Sql.{unsupported}
use shard_db.Strings.Split.{Lacks}
use shard_db.Store.{Lock}
use shard_db.Store.Abstract.View.{view}
use shard_db.Tree.SortedList.{sorted_list}
use shard_db.Txn
use shard_db.Txn.{
  Coordinator, Transaction, WriteIntent, Env, Message, prepare, commit, abort, oneshot, active,
  prepare_failed, commit_txn, group_by_shard,
}
use shard_db.Cluster.{Cluster, Wire, deliver_all, oneshot_ops}
use shard_db.Shard.{Req}
use shard_db.Cluster.Outcome.{Unlocked, Written}
use shard_db.Cluster.Commit.{commit_txn-Written}
use shard_db.Cluster.OnePhase.{AllOrNothing, commit_txn-AllOrNothing}
use shard_db.Cluster.Abort.{commit_txn-Unlocked}

-- Keys below "m" belong to shard 1, the others to shard 2.
abbrev routes : Router
routes = record {
  meta_url = codes "http://localhost:8080";
  ranges =
      record { start_key = none; end_key = some (codes "m"); shard_id = 1 }
      ∷ record { start_key = some (codes "m"); end_key = none; shard_id = 2 }
      ∷ [];
  shard_addrs = (1, codes "a1") ∷ (2, codes "a2") ∷ [];
}

abbrev writes : List WriteIntent
writes =
    record { key = codes "b"; value = codes "1" }
    ∷ record { key = codes "x"; value = codes "2" }
    ∷ []

abbrev id : Bytes
id = codes "txn-7"

abbrev txn : Transaction
txn = record { id = id; state = active; start_time = 8; writes = writes }

abbrev coordinator : Coordinator
coordinator = record { transactions = (id, txn) ∷ []; router = routes }

abbrev accepts : Env
accepts = record {
  responds = λ log m. true;
  prepare_order = λ groups. groups;
  commit_order = λ groups. groups;
}

abbrev is_last : Message → Bool
is_last (prepare shard key value txn_id) = bytes_equal key (codes "x")
is_last _ = false

-- A network that does not answer the second prepare request.
abbrev refuses : Env
refuses = record accepts { responds = λ log m. if is_last m then false else true }

abbrev wire : Wire
wire = record {
  parsers = record {
    unmarshal = λ body. record { txn_id = []; ts = 0; ops = [] };
    parse_to_plan = λ sql. err unsupported;
  };
  marshal = λ req. [];
}

-- The lock of another transaction on "b".
abbrev other : Lock
other = record { txn_id = codes "txn-3"; value = codes "9" }

abbrev nodes : Cluster sorted_list
nodes addr = record { tree = []; locks = (codes "b", other) ∷ [] }

-- The commit requests arrive in the other order.
abbrev committed : List Message
committed = commit (codes "a2") (codes "x") id 9 ∷ commit (codes "a1") (codes "b") id 9 ∷ []

abbrev prepared : List Message
prepared =
    prepare (codes "a1") (codes "b") (codes "1") id
    ∷ prepare (codes "a2") (codes "x") (codes "2") id
    ∷ []

abbrev aborted : List Message
aborted = abort (codes "a2") (codes "x") id ∷ abort (codes "a1") (codes "b") id ∷ []

abbrev after : List Message → Cluster sorted_list
after ms = deliver_all wire ms nodes

one_plain : (false ≡ false) × Unit {0}
one_plain = (refl, tt)

id_plain : Lacks b' ' id
id_plain = (refl, (refl, (refl, (refl, (refl, tt)))))

-- The write of "x" is stored and the one of "b" is lost, though Commit succeeds.
commit_txn-Written_example :
    let before = view (nodes (codes "a1")) in
    let done = view (after (prepared ++ committed) (codes "a1")) in
    Unlocked id (codes "b") (some (codes "1")) before done
    × Written id 9 (codes "b") (some (codes "1")) before done
unfolding Dict.get commit_txn Txn.commit_groups Txn.commit_two_phase Txn.prepare_all
    Txn.prepare_intents bytes_equal group_by_shard Dict.put locate bytes_ltb get_shard_id
    Router.scan_ranges Router.contains shard_addr Txn.commit_messages Txn.commit_intents
commit_txn-Written_example =
    commit_txn-Written accepts 9 id txn coordinator wire nodes committed (codes "a1") (codes "b")
      refl refl refl refl (λ addr. refl) (λ addr. refl)
      ((inr (inl refl), (inl refl, tt)), (inr (inl refl), (inl refl, tt)))
      (
        (one_plain, one_plain, id_plain),
        (
          (one_plain, one_plain, id_plain),
          ((one_plain, id_plain, omega arith), ((one_plain, id_plain, omega arith), tt)),
        ),
      )
      (λ a. record { sorted = tt; versions = tt })

-- The prepare request of "x" is not answered and does not arrive.
commit_txn-Unlocked_example :
    let before = view (nodes (codes "a2")) in
    let done =
      view (after (prepare (codes "a1") (codes "b") (codes "1") id ∷ aborted) (codes "a2")) in
    Unlocked id (codes "x") (some (codes "2")) before done × (done.at ≡ before.at)
unfolding Dict.get commit_txn Txn.commit_groups Txn.commit_two_phase Txn.prepare_all
    Txn.prepare_intents Txn.abort_txn Txn.abort_messages bytes_equal group_by_shard Dict.put locate
    bytes_ltb get_shard_id Router.scan_ranges Router.contains shard_addr
commit_txn-Unlocked_example =
    commit_txn-Unlocked refuses 9 id txn coordinator wire nodes
      (prepare (codes "a1") (codes "b") (codes "1") id ∷ []) aborted (codes "a2") (codes "x")
      (prepare_failed (codes "a2") (codes "x")) refl refl refl refl (λ addr. refl) (inl refl, tt)
      ((inr (inl refl), (inl refl, tt)), (inr (inl refl), (inl refl, tt)))
      (
        (one_plain, one_plain, id_plain),
        ((one_plain, one_plain, id_plain), ((one_plain, id_plain), ((one_plain, id_plain), tt))),
      )
      (λ a. record { sorted = tt; versions = tt })

-- A transaction on the first shard only.
abbrev near : List WriteIntent
near =
    record { key = codes "b"; value = codes "1" }
    ∷ record { key = codes "c"; value = codes "2" }
    ∷ []

abbrev near_txn : Transaction
near_txn = record { id = id; state = active; start_time = 8; writes = near }

abbrev near_coordinator : Coordinator
near_coordinator = record { transactions = (id, near_txn) ∷ []; router = routes }

-- A wire that knows one body.
abbrev near_body : Req
near_body = record {
  txn_id = id;
  ts = 9;
  ops =
      record { key = codes "b"; val = codes "1" }
      ∷ record { key = codes "c"; val = codes "2" }
      ∷ [];
}

abbrev near_wire : Wire
near_wire = record wire { parsers = record wire.parsers { unmarshal = λ body. near_body } }

-- The key "b" is held by another transaction, so "c" is not written either.
commit_txn-AllOrNothing_example :
    let r = commit_txn accepts 9 id near_coordinator [] in
    (r.1 ≡ ok tt)
    × (r.0.1 ≡ oneshot (codes "a1") near id 9 ∷ [])
    × AllOrNothing id 9
        (codes "c")
        near
        (view (nodes (codes "a1")))
        (view (deliver_all near_wire r.0.1 nodes (codes "a1")))
unfolding Dict.get bytes_equal group_by_shard Dict.put locate bytes_ltb get_shard_id
    Router.scan_ranges Router.contains shard_addr oneshot_ops
commit_txn-AllOrNothing_example =
    commit_txn-AllOrNothing near_wire nodes (codes "a1") accepts 9 id near_txn
      (record { key = codes "b"; value = codes "1" })
      (record { key = codes "c"; value = codes "2" } ∷ []) near_coordinator near (codes "c") refl
      refl refl refl refl refl (omega arith) (record { sorted = tt; versions = tt })
