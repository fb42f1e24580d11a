-- ===== src/Raft/ListMemory.antt =====
-- A storage in memory that is the list of its entries, which are texts, and a raft.Node that counts the
-- calls that it gets: the parameters of the model as functions.
use shard_db.Base.{ℕ, ◌+◌, true, Option, none, some, List, [], ◌∷◌, ◌++◌, length}
use shard_db.Base.Result.{ok}
use shard_db.Bytes.{Bytes}
use shard_db.Raft.{Record, RaftLibrary}
use shard_db.Raft.Node.{NodeLibrary}
use shard_db.Raft.Program.{Etcd}
use shard_db.Raft.Run.{RunLibrary}
use shard_db.Raft.Transport.{MessageCodec}

abbrev decode_record : Bytes → Option Record
decode_record [] = none
decode_record (t ∷ b) = some (record { typ = t; data_ = b })

abbrev pub list_library : RaftLibrary
list_library = record {
  Memory = List Bytes;
  Entry = Bytes;
  HardState = Unit;
  Snapshot = Unit;
  ConfState = Unit;
  new_memory_storage = [];
  append_entries = λ es m. some (m ++ es);
  set_hard_state = λ h m. m;
  apply_snapshot_memory = λ s m. ok m;
  create_snapshot_memory = λ i cs b m. some (ok (m, tt));
  compact = λ i m. ok m;
  is_empty_hard_state = λ h. true;
  marshal_entry = λ en. en;
  unmarshal_entry = λ b. some b;
  marshal_hard_state = λ h. [];
  unmarshal_hard_state = λ b. some tt;
  marshal_snapshot = λ s. [];
  unmarshal_snapshot = λ b. some tt;
  marshal_record = λ r. r.typ ∷ r.data_;
  unmarshal_record = decode_record;
}

-- A message is its text.
abbrev pub text_codec : MessageCodec
text_codec = record {
  Message = Bytes;
  to = λ m. length m;
  marshal = λ m. some m;
  unmarshal = λ b. some b;
}

abbrev pub list_etcd : Etcd list_library
list_etcd = record {
  codec = text_codec;
  is_normal = λ en. true;
  entry_data = λ en. en;
  entry_index = λ en. 1;
  first_index = λ m. 1;
  is_empty_snap = λ s. true;
  snapshot_data = λ s. [];
  voters = tt;
}

abbrev pub list_run : (N : NodeLibrary list_library) → RunLibrary list_library N
list_run N = record {
  RaftNode = ℕ;
  start_node = λ id peers. 0;
  restart_node = λ id m. 0;
  last_index = λ m. length m;
  tick = λ n. n + 1;
  advance = λ n. n + 1;
  stop = λ n. n + 1;
  propose = λ data_ n. (n + 1, ok tt);
  step = λ msg n. (n + 1, ok tt);
}
