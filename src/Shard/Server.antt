-- ===== src/Shard/Server.antt =====
-- cmd/shard-node/main.go: a shard node as a whole. raft applies what is committed to the store by the
-- ApplierAdapter, and the handlers propose entries, or use the store themselves.
use shard_db.Base.{ℕ, Option, none, some, List}
use shard_db.Base.Result.{Result, ok, err}
use shard_db.Bytes.{Bytes}
use shard_db.Peers.{shard_peers}
use shard_db.Raft.{RaftLibrary}
use shard_db.Raft.Node.{NodeLibrary}
use shard_db.Raft.Program.{Etcd, StartError, flag_panic, started, Happening, serve}
use shard_db.Raft.Run.{RunLibrary, Running, new_node, propose, step}
use shard_db.Raft.Transport.{HttpTransport, new_http_transport, set_peers, handler}
use shard_db.Shard.{Parsers, apply_entry, prepare_entry, commit_entry, abort_entry, oneshot_entry}
use shard_db.Shard.Debug.{Codec, DebugResponse, debug_export, debug_ingest}
use shard_db.Shard.Execute.{ExecuteResponse, execute_handler}
use shard_db.Store.{MemoryStore, new_memory_store}
use shard_db.Store.Backup.{get_snapshot_data, restore_snapshot}
use shard_db.Tree.{BTree}
use shard_db.Wal.{Wal}

-- The JSON text of a snapshot, from its members and back; `none` is a text that is no such object.
pub record SnapshotText : Type 0 where
  pub encode : List (Bytes × Bytes) → Bytes
  pub decode : Bytes → Option (List (Bytes × Bytes))

-- The methods of ApplierAdapter on its engine, beside what raft uses of etcd.
abbrev pub applier : {R : RaftLibrary} → Etcd R → BTree → Parsers → SnapshotText → NodeLibrary R
applier e B p text = record {
  Message = e.codec.Message;
  Machine = MemoryStore B;
  is_normal = e.is_normal;
  entry_data = e.entry_data;
  entry_index = e.entry_index;
  first_index = e.first_index;
  is_empty_snap = e.is_empty_snap;
  snapshot_data = e.snapshot_data;
  voters = e.voters;
  apply = λ entry s. apply_entry p (e.entry_data entry) s;
  get_snapshot = λ s. ok (text.encode (get_snapshot_data s));
  restore = λ data_ s. (restore_snapshot (text.decode data_) s).0;
}

-- A request that a handler gets: the query parameters that it reads, or the body. A body of /raft
-- that cannot be read is `none`.
pub data HttpCall : Type 0 where
  execute_call : Bytes → Bytes → HttpCall
  prepare_call : Bytes → Bytes → Bytes → HttpCall
  commit_call : Bytes → Bytes → Bytes → HttpCall
  abort_call : Bytes → Bytes → HttpCall
  oneshot_call : Bytes → HttpCall
  raft_call : Bytes → Option Bytes → HttpCall
  export_call : Bytes → Bytes → HttpCall
  ingest_call : Bytes → HttpCall

-- What it answers: rows or a text, a status alone, or a status with a body.
pub data Reply : Type 0 where
  execute_reply : ExecuteResponse → Reply
  status_reply : ℕ → Reply
  debug_reply : DebugResponse → Reply

module _ {R : RaftLibrary} {B : BTree} (e : Etcd R) (p : Parsers) (text : SnapshotText) where
  module _ (L : RunLibrary R (applier e B p text)) where
    -- main up to the start of Run, with the flags "id" and "cluster" and the file at the path of the
    -- log: the transport and the node
    unfoldable pub start_shard : ℕ → Bytes → Wal → Result StartError (HttpTransport × Running L)
    start_shard id cluster wal = elim (shard_peers cluster) [
      | none ↦ err flag_panic
      | some peers ↦
          let created = new_node L (record { id = id; peers = peers.ids; wal = some wal }) in
          elim (started L (new_memory_store B) created) [
            | err f ↦ err f
            | ok n ↦ ok (set_peers peers.urls new_http_transport, n)
          ]
    ]

    abbrev with_store : MemoryStore B → Running L → Running L
    with_store s n = record n { node = record n.node { machine = s } }

    -- the handlers; a response that is not written to has status 200
    unfoldable pub handle_call : Codec → HttpCall → Running L → Running L × Reply
    handle_call c (execute_call sql body) n =
        let (entry, s, response) = execute_handler p sql body n.node.machine in
        (with_store s (propose L entry n).0, execute_reply response)
    handle_call c (prepare_call key val txn) n =
        ((propose L (prepare_entry key val txn) n).0, status_reply 200)
    handle_call c (commit_call key txn ts) n =
        ((propose L (commit_entry key txn ts) n).0, status_reply 200)
    handle_call c (abort_call key txn) n = ((propose L (abort_entry key txn) n).0, status_reply 200)
    handle_call c (oneshot_call body) n = ((propose L (oneshot_entry body) n).0, status_reply 200)
    handle_call c (raft_call method body) n =
        let (status, message) = handler e.codec method body in
        elim message [
          | none ↦ (n, status_reply status)
          | some m ↦ ((step L m n).0, status_reply status)
        ]
    handle_call c (export_call from to) n = (n, debug_reply (debug_export c from to n.node.machine))
    handle_call c (ingest_call body) n =
        let (s, response) = debug_ingest c body n.node.machine in
        (with_store s n, debug_reply response)

    -- All that happens to a node, one after the other.
    abbrev pub serve_shard : Codec → List (Happening L HttpCall) → Running L → Option (Running L)
    serve_shard c = serve L (λ r n. (handle_call c r n).0)
