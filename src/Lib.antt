-- ===== src/Lib.antt =====
-- ShardDB: a sharded key-value store with versions, locks, transactions and a log.
--
-- A proxy places each key on a shard (internal/router), buffers the writes of a transaction and
-- commits them in one phase or in two (internal/txn). The ranges of keys that shards own are kept
-- by the meta node (internal/meta). A shard keeps versions of its keys and the locks of
-- transactions that are prepared (internal/storage), and its raft log in a file
-- (internal/storage/wal).
--
--   Base        shared notation: native numbers, lists, options, results, the tests and if-then-else
--   Bytes       []byte and string with their order and the big-endian codecs of the standard library
--   Dict        map[string]V as an association list
--   Decimal     %d of fmt
--   Sort        sort.Search
--   Mvcc        internal/storage/mvcc.go: EncodeKey and DecodeKey
--   Tree        google/btree as an interface (a parameter of the store) with its laws; a sorted list
--               fulfils them
--   Store       internal/storage/memory.go, one function for each method of MemoryStore; Store.Calls
--               has the calls that change a store, and runs of them; Store.Versions is MVCCGet of
--               mvcc.go, Store.Backup has the snapshots, and Store.Abstract is the contract of a
--               store, with no tree and no encoded keys, and its refinement
--   Meta        internal/meta/store.go: GetShard, Apply, GetSnapshot and Restore; Meta.Tiles is the
--               invariant of the ranges
--   MetaNode    cmd/meta-node/main.go: the handler of /route; MetaNode.Server is the program, and
--               MetaNode.Serve its store through all that happens to it
--   Peers       the flag "cluster" of cmd/shard-node/main.go and cmd/meta-node/main.go
--   Router      internal/router/router.go: GetShardID and Locate; its ForwardRequest is in
--               Proxy
--   Wal         internal/storage/wal/wal.go: Append and Iterate on the bytes of the file
--   Txn         internal/txn/coordinator.go: the transactions, with the requests that they send;
--               Txn.Overlap is about calls that come while Commit sends
--   Utf8        what encoding/json makes of strings
--   Strings     what the program uses of package strings
--   Sql         internal/sql: Parser (ParseToPlan), plans, and Executor (Execute on a store)
--   Planner     internal/planner/planner.go: Analyze, compared with ParseToPlan in Planner.Routing
--   Shard       cmd/shard-node/main.go: Apply, and the entries that the handlers propose; Shard.Debug has
--               /debug/export and /debug/ingest, and Shard.Execute has /execute; Shard.Server is the
--               program, Shard.Serve its store through all that happens to it, and Shard.Replicas two
--               nodes of a group
--   Cluster     the requests of the coordinator (sendPrepare and the others), as the shard nodes propose
--               and apply them: Cluster.Commit and Cluster.Abort are the two ends of a transaction on
--               several shards, and Cluster.OnePhase is one on a single shard
--   Raft        internal/raft/storage.go: Save, CreateSnapshot, ApplySnapshot and the replay at the
--               start; Raft.Node and Raft.Run are internal/raft/node.go: the case of a Ready, and the
--               loop of Run with NewNode, Propose and Step; Raft.Transport is
--               internal/raft/transport.go; Raft.Program is what the shard node and the meta node have
--               in common, and Raft.ListMemory has parameters of the model as functions, for tests
--   Metrics     internal/metrics/metrics.go: the counters
--   Proxy       cmd/proxy/main.go: the handler of /execute; Proxy.Session is a transaction from its
--               BEGIN to the store of the shard that NewRouter gives all keys
--   Client      cmd/tools/verify_*/main.go: the programs that check a store or a cluster: what they
--               send and what they print
--
-- Conventions. A mutex that a method holds from its start to its end makes the method one step, so
-- a method is a function of the state. Commit releases its mutex while it sends and is two
-- functions, commit_start and commit_rest; commit_txn is a Commit with no call for the coordinator in
-- between. A nil slice is `none` where the code tells it from an empty one; a stored value is never
-- nil, so a null among the values that /debug/ingest reads is left out.
-- A map is an association list, and its order stands for the order of a range over the map. A
-- panic is `none` of Meta.Checked, or of an Option in Raft and in Peers. The network of the
-- coordinator is an environment that answers each request, seen with the requests before it. Byte
-- values are native numbers below 256. The handlers of a program and the cases of the select of Run
-- are steps of one sequence, in which a Ready, with all that it commits, is one step. A uint64 or
-- uint32 that could wrap has its bound as a hypothesis or its `% 2 ^ w` written out.
--
-- Fuel. sort.Search gets the width of its interval, which every round makes smaller. Iterate gets
-- one more than the length of the file, and a round reads eight bytes at least. The digits of a
-- number are at most the number and one. The sequences of a string are at most its bytes.
--
-- Parameters. google/btree is Tree.BTree; vitess sqlparser is Sql.Parser.SqlParser, with Parse as a
-- function to statements that have the fields the code reads; etcd's raft is Raft.RaftLibrary,
-- Raft.Node.NodeLibrary, Raft.Program.Etcd, Raft.Run.RunLibrary and Raft.Transport.MessageCodec;
-- the HTTP requests of the coordinator and of the proxy are Txn.Env and Proxy.Outside; JSON of a
-- command, of a oneshot body, of exported items and of rows is a function; what the clients call is
-- Client.Web. Upper case and spaces are those of ASCII. The JSON text of a snapshot of the store,
-- or of the meta store, is the members of the object that it writes.
--
-- Not modelled: the listeners and signals of the programs, cmd/tools/benchmark, which measures, and
-- errors of the operating system.
pub mod Base
pub mod Bytes
pub mod Client
pub mod Cluster
pub mod Decimal
pub mod Dict
pub mod Meta
pub mod MetaNode
pub mod Metrics
pub mod Mvcc
pub mod Peers
pub mod Planner
pub mod Proxy
pub mod Raft
pub mod Router
pub mod Shard
pub mod Sort
pub mod Sql
pub mod Store
pub mod Strings
pub mod Tree
pub mod Txn
pub mod Utf8
pub mod Wal
