-- ===== src/MetaNode/Server.antt =====
-- cmd/meta-node/main.go: a meta node as a whole. raft applies what is committed to the meta store, and
-- the handlers hand raft its messages, and answer requests for a route.
use shard_db.Base.{ℕ, Option, none, some, List}
use shard_db.Base.Result.{Result, ok, err}
use shard_db.Bytes.{Bytes, codes}
use shard_db.Meta.{MetaStore, Checked, Command, apply, new_meta_store}
use shard_db.Meta.Snapshot.{State, get_snapshot, restore}
use shard_db.MetaNode.{RouteResponse, route}
use shard_db.Peers.{meta_peers}
use shard_db.Raft.{RaftLibrary}
use shard_db.Raft.Node.{NodeLibrary}
use shard_db.Raft.Program.{Etcd, StartError, Happening, started, serve}
use shard_db.Raft.Run.{RunLibrary, Running, new_node, step}
use shard_db.Raft.Transport.{HttpTransport, new_http_transport, set_peers, handler}
use shard_db.Wal.{Wal}

-- json.Unmarshal of a command, and the JSON text of a snapshot, from its object and back.
pub record MetaText : Type 0 where
  pub command : Bytes → Option Command
  pub encode : State → Bytes
  pub decode : Bytes → Option State

-- The methods of MetaStore as an applier. Where one of them has panicked, the program is no more.
unfoldable pub apply_meta : MetaText → Bytes → Checked MetaStore → Checked MetaStore
apply_meta text data_ none = none
apply_meta text data_ (some s) = apply text.command data_ s

unfoldable pub snapshot_meta : MetaText → Checked MetaStore → Result Bytes Bytes
snapshot_meta text none = err (codes "panic")
snapshot_meta text (some s) = ok (text.encode (get_snapshot s))

unfoldable pub restore_meta : MetaText → Bytes → Checked MetaStore → Checked MetaStore
restore_meta text data_ none = none
restore_meta text data_ (some s) = some (restore (text.decode data_) s).0

abbrev pub meta_applier : {R : RaftLibrary} → Etcd R → MetaText → NodeLibrary R
meta_applier e text = record {
  Message = e.codec.Message;
  Machine = Checked MetaStore;
  is_normal = e.is_normal;
  entry_data = e.entry_data;
  entry_index = e.entry_index;
  first_index = e.first_index;
  is_empty_snap = e.is_empty_snap;
  snapshot_data = e.snapshot_data;
  voters = e.voters;
  apply = λ entry m. apply_meta text (e.entry_data entry) m;
  get_snapshot = snapshot_meta text;
  restore = restore_meta text;
}

-- A request that a handler gets. A body of /raft that cannot be read is `none`.
pub data MetaCall : Type 0 where
  raft_call : Bytes → Option Bytes → MetaCall
  route_call : Bytes → MetaCall

-- What it answers: a status alone, or the object of a route, `none` where the handler panics.
pub data MetaReply : Type 0 where
  status_reply : ℕ → MetaReply
  route_reply : Checked RouteResponse → MetaReply

-- the handler of /route, on the store of the node
unfoldable pub reply_route : Bytes → Checked MetaStore → MetaReply
reply_route key none = route_reply none
reply_route key (some s) = route_reply (route key s)

module _ {R : RaftLibrary} (e : Etcd R) (text : MetaText) where
  module _ (L : RunLibrary R (meta_applier e text)) where
    -- main up to the start of Run, with the flags "id" and "cluster" and the file at the path of the
    -- log: the transport and the node
    unfoldable pub start_meta : ℕ → Bytes → Wal → Result StartError (HttpTransport × Running L)
    start_meta id cluster wal =
        let peers = meta_peers cluster in
        let created = new_node L (record { id = id; peers = peers.ids; wal = some wal }) in
        elim (started L (some new_meta_store) created) [
          | err f ↦ err f
          | ok n ↦ ok (set_peers peers.urls new_http_transport, n)
        ]

    -- the handlers
    unfoldable pub handle_meta : MetaCall → Running L → Running L × MetaReply
    handle_meta (raft_call method body) n =
        let (status, message) = handler e.codec method body in
        elim message [
          | none ↦ (n, status_reply status)
          | some m ↦ ((step L m n).0, status_reply status)
        ]
    handle_meta (route_call key) n = (n, reply_route key n.node.machine)

    -- All that happens to a node, one after the other.
    abbrev pub serve_meta : List (Happening L MetaCall) → Running L → Option (Running L)
    serve_meta = serve L (λ r n. (handle_meta r n).0)
