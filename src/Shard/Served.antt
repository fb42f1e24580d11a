-- ===== src/Shard/Served.antt =====
-- Shard nodes that commit a transaction, and the theorems at them.
use shard_db.Base.{◌≡◌, refl, true, false, some, List, [], ◌∷◌, arith, none}
use shard_db.Base.Result.{ok, err}
use shard_db.Bytes.{Bytes, codes, bytes_compare, bytes_equal, put_uint}
use shard_db.Mvcc.{encode_key}
use shard_db.Dict
use shard_db.Raft.ListMemory.{list_library, list_etcd, list_run}
use shard_db.Raft.Node.{Ready}
use shard_db.Raft.Program.{Happening, requested, selected}
use shard_db.Raft.Run.{RunLibrary, Running, done, ticked, ready}
use shard_db.Raft.Transport.{HttpTransport}
use shard_db.Shard.{Parsers}
use shard_db.Shard.Debug.{Codec}
use shard_db.Shard.Effects.{committed_calls}
use shard_db.Shard.Replicas.{serve_shard-serve_shard}
use shard_db.Shard.Serve.{serve_shard-Steps}
use shard_db.Shard.Server.{
  SnapshotText, applier, HttpCall, prepare_call, commit_call, raft_call, start_shard, handle_call,
  serve_shard,
}
use shard_db.Sql.{unsupported}
use shard_db.Store.{MemoryStore, new_memory_store}
use shard_db.Store.Abstract.{Steps}
use shard_db.Store.Abstract.View.{view}
use shard_db.Store.Calls.{Call, run}
use shard_db.Store.Items.{IsMvcc}
use shard_db.Store.Seek.{version}
use shard_db.Tree.SortedList.{sorted_list}
use shard_db.Wal.{Wal}

abbrev parsers : Parsers
parsers = record {
  unmarshal = λ body. record { txn_id = []; ts = 0; ops = [] };
  parse_to_plan = λ sql. err unsupported;
}

abbrev text : SnapshotText
text = record { encode = λ members. []; decode = λ b. none }

abbrev codec : Codec
codec = record { encode = λ items. []; decode = λ b. none; range = λ m. m }

abbrev run_library : RunLibrary list_library (applier list_etcd sorted_list parsers text)
run_library = list_run (applier list_etcd sorted_list parsers text)

abbrev file : Wal
file = record { f = []; path = codes "data/shard-1" }

abbrev with_machine : MemoryStore sorted_list → List Bytes → Running run_library
with_machine s sent = record {
  node = record { storage = record { memory = []; wal = file }; machine = s; sent = sent };
  raft_node = 0;
  stopped = false;
}

abbrev begun : Running run_library
begun = with_machine (new_memory_store sorted_list) []

abbrev transport : HttpTransport
transport = record { peers = (1, codes "http://a") ∷ [] }

begun-start :
    start_shard list_etcd parsers text run_library 1 (codes "1=http://a") file
    ≡ ok (transport, begun)
unfolding start_shard shard_db.Peers.shard_peers shard_db.Peers.shard_parts shard_db.Strings.split
    shard_db.Raft.Program.started shard_db.Raft.Run.new_node shard_db.Raft.new_disk_storage
    shard_db.Wal.iterate shard_db.Wal.iterate_loop shard_db.Wal.read_full
    shard_db.Raft.Transport.set_peers shard_db.Peers.add_pair shard_db.Decimal.scan_uint64
begun-start = refl

abbrev commits : List Bytes → Ready list_library (applier list_etcd sorted_list parsers text)
commits es = record {
  entries = [];
  hard_state = tt;
  messages = codes "ack" ∷ [];
  committed_entries = es;
  snap = tt;
}

abbrev prepared : Bytes
prepared = codes "PREPARE t:u1 v txn-7"

abbrev decided : Bytes
decided = codes "COMMIT t:u1 txn-7 12"

-- The leader gets the requests; its follower gets the first entry only.
abbrev leading : List (Happening run_library HttpCall)
leading =
    requested (prepare_call (codes "t:u1") (codes "v") (codes "txn-7"))
    ∷ selected ticked
    ∷ selected (ready (commits (prepared ∷ [])))
    ∷ requested (commit_call (codes "t:u1") (codes "txn-7") (codes "12"))
    ∷ selected (ready (commits (decided ∷ [])))
    ∷ selected done
    ∷ []

abbrev following : List (Happening run_library HttpCall)
following =
    requested (raft_call (codes "POST") (some (codes "append")))
    ∷ selected (ready (commits (prepared ∷ [])))
    ∷ []

abbrev led : Running run_library
led = record {
  node = record {
    storage = record { memory = []; wal = file };
    machine = record { tree = version (codes "t:u1") 12 (codes "v") ∷ []; locks = [] };
    sent = codes "ack" ∷ codes "ack" ∷ [];
  };
  raft_node = 6;
  stopped = true;
}

abbrev followed : Running run_library
followed = record {
  node = record {
    storage = record { memory = []; wal = file };
    machine = record {
      tree = [];
      locks = (codes "t:u1", record { txn_id = codes "txn-7"; value = codes "v" }) ∷ [];
    };
    sent = codes "ack" ∷ [];
  };
  raft_node = 2;
  stopped = false;
}

leading-served : serve_shard list_etcd parsers text run_library codec leading begun ≡ some led
unfolding handle_call shard_db.Raft.Program.serve shard_db.Raft.Run.propose
    shard_db.Shard.apply_commit shard_db.Store.commit shard_db.Decimal.scan_uint64 Dict.remove
    encode_key put_uint bytes_compare bytes_equal shard_db.Raft.Run.step shard_db.Raft.Run.select
    shard_db.Raft.Node.handle_ready shard_db.Raft.save shard_db.Raft.write_entries
    shard_db.Raft.Node.apply_committed shard_db.Shard.apply_entry shard_db.Strings.has_prefix
    shard_db.Shard.apply_prepare shard_db.Strings.split shard_db.Store.prepare Dict.get
    new_memory_store Dict.put
leading-served = refl

following-served :
    serve_shard list_etcd parsers text run_library codec following begun ≡ some followed
unfolding handle_call shard_db.Raft.Program.serve shard_db.Raft.Transport.handler bytes_equal
    shard_db.Raft.Run.step shard_db.Raft.Run.select shard_db.Raft.Node.handle_ready
    shard_db.Raft.save shard_db.Raft.write_entries shard_db.Raft.Node.apply_committed
    shard_db.Shard.apply_entry shard_db.Strings.has_prefix shard_db.Shard.apply_prepare
    shard_db.Strings.split shard_db.Store.prepare Dict.get new_memory_store Dict.put
following-served = refl

serve_shard-Steps_example :
    let calls : List Call =
      Call.prepare (codes "t:u1") (codes "v") (codes "txn-7")
      ∷ Call.commit (codes "t:u1") (codes "txn-7") 12
      ∷ [] in
    (led.node.machine ≡ run calls (new_memory_store sorted_list))
    × IsMvcc led.node.machine.tree
    × Steps calls (view (new_memory_store sorted_list)) (view led.node.machine)
unfolding shard_db.Strings.has_prefix shard_db.Store.commit shard_db.Strings.split
    shard_db.Decimal.scan_uint64
serve_shard-Steps_example =
    serve_shard-Steps list_etcd parsers text run_library codec 1 (codes "1=http://a") file transport
      begun led leading begun-start (λ body. omega arith) (tt, (tt, (refl, (tt, (refl, (tt, tt))))))
      (tt, (tt, (tt, (tt, (tt, (tt, tt)))))) leading-served

serve_shard-serve_shard_example :
    led.node.machine ≡ run (committed_calls list_etcd parsers (decided ∷ [])) followed.node.machine
serve_shard-serve_shard_example =
    serve_shard-serve_shard list_etcd parsers text run_library codec 1 1 (codes "1=http://a")
      (codes "1=http://a") file file transport transport begun followed begun led following leading
      (decided ∷ []) begun-start begun-start ((tt, (refl, tt)), (refl, (tt, tt)))
      ((tt, (tt, (refl, (tt, (refl, (tt, tt)))))), (refl, (tt, (tt, (refl, (tt, (tt, tt)))))))
      following-served leading-served refl
