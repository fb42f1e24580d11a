-- ===== src/MetaNode/Served.antt =====
-- A meta node that splits its range and answers for a route, and the theorem at it.
use shard_db.Base.{◌≡◌, refl, true, false, none, some, List, [], ◌∷◌, arith}
use shard_db.Base.Result.{ok}
use shard_db.Bytes.{Bytes, codes, bytes_compare, bytes_equal}
use shard_db.Meta.{Range, MetaStore, Command, new_meta_store}
use shard_db.MetaNode.Server.{
  MetaText, MetaCall, raft_call, route_call, route_reply, meta_applier, start_meta, handle_meta,
  serve_meta,
}
use shard_db.MetaNode.Serve.{serve_meta-route}
use shard_db.Raft.ListMemory.{list_library, list_etcd, list_run}
use shard_db.Raft.Node.{Ready, apply_committed}
use shard_db.Raft.Program.{Happening, requested, selected, committed}
use shard_db.Raft.Run.{RunLibrary, Running, done, ticked, ready}
use shard_db.Raft.Transport.{HttpTransport}
use shard_db.Router.Agreement.{IsFound}
use shard_db.Utf8.{sanitize}
use shard_db.Wal.{Wal}

-- An entry is the key at which it splits.
abbrev text : MetaText
text = record {
  command = λ key. some (record {
    op = codes "SPLIT_RANGE";
    range = record { start_key = none; end_key = none; shard_id = 0 };
    shard = record { id = 0; addrs = [] };
    split_key = some key;
    shard_id1 = 1;
    shard_id2 = 2;
  });
  encode = λ st. [];
  decode = λ b. none;
}

abbrev run_library : RunLibrary list_library (meta_applier list_etcd text)
run_library = list_run (meta_applier list_etcd text)

abbrev file : Wal
file = record { f = []; path = codes "data/meta-wal-10.log" }

abbrev begun : Running run_library
begun = record {
  node = record {
    storage = record { memory = []; wal = file };
    machine = some new_meta_store;
    sent = [];
  };
  raft_node = 0;
  stopped = false;
}

abbrev transport : HttpTransport
transport = record { peers = (10, codes "http://m") ∷ [] }

abbrev split_entry : Ready list_library (meta_applier list_etcd text)
split_entry = record {
  entries = [];
  hard_state = tt;
  messages = codes "ack" ∷ [];
  committed_entries = codes "m" ∷ [];
  snap = tt;
}

abbrev happenings : List (Happening run_library MetaCall)
happenings =
    requested (raft_call (codes "POST") (some (codes "append")))
    ∷ selected ticked
    ∷ selected (ready split_entry)
    ∷ requested (route_call (codes "z"))
    ∷ selected done
    ∷ []

abbrev ended : Running run_library
ended = record {
  node = record {
    storage = record { memory = []; wal = file };
    machine = some (record {
      ranges =
          record { start_key = none; end_key = some (codes "m"); shard_id = 1 }
          ∷ record { start_key = some (codes "m"); end_key = none; shard_id = 2 }
          ∷ [];
      shards = [];
    });
    sent = codes "ack" ∷ [];
  };
  raft_node = 4;
  stopped = true;
}

begun-start :
    start_meta list_etcd text run_library 10 (codes "10=http://m") file ≡ ok (transport, begun)
unfolding start_meta shard_db.Raft.Program.started shard_db.Raft.Run.new_node
    shard_db.Raft.new_disk_storage shard_db.Wal.iterate shard_db.Wal.iterate_loop
    shard_db.Wal.read_full shard_db.Raft.Transport.set_peers shard_db.Peers.meta_peers
    shard_db.Peers.meta_parts shard_db.Strings.split shard_db.Peers.add_pair
    shard_db.Decimal.scan_uint64
begun-start = refl

served : serve_meta list_etcd text run_library happenings begun ≡ some ended
unfolding handle_meta shard_db.Raft.Program.serve shard_db.Raft.Program.happen
    shard_db.Raft.Transport.handler bytes_equal shard_db.Raft.Run.step shard_db.Raft.Run.select
    shard_db.Raft.Node.handle_ready shard_db.Raft.Node.last_entry shard_db.Raft.Node.snapshot_check
    shard_db.Raft.save shard_db.Raft.write_entries apply_committed
    shard_db.MetaNode.Server.apply_meta shard_db.Meta.apply shard_db.Meta.apply_command
    shard_db.Meta.split_range new_meta_store shard_db.Meta.search_ranges shard_db.Sort.search
    shard_db.Meta.starts_after shard_db.Meta.split_target bytes_compare shard_db.Bytes.bytes_ltb
    shard_db.Meta.assign shard_db.Meta.copy shard_db.Meta.replace_by_two shard_db.Sort.search_loop
served = refl

serve_meta-route_example :
    (s : MetaStore) × (ended.node.machine ≡ some s)
    × (apply_committed (meta_applier list_etcd text) (codes "m" ∷ []) (some new_meta_store)
        ≡ some s)
    × ((key : Bytes)
        → (range : Range) × IsFound key s s.ranges range
          × (handle_meta list_etcd text run_library (route_call key) ended ≡ (
            ended,
            route_reply (some (record { key = sanitize key; shard_id = range.shard_id })),
          )))
serve_meta-route_example =
    serve_meta-route list_etcd text run_library 10 (codes "10=http://m") file transport begun ended
      happenings begun-start (tt, (tt, (refl, (tt, (tt, tt)))))
      ((λ cmd e. (codes "m", ground arith)), tt) served
