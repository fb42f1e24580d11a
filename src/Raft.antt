-- ===== src/Raft.antt =====
-- internal/raft/storage.go: raft's storage with a log file that is replayed at the start. etcd's
-- raft and raftpb are parameters.
pub mod Recovery
pub mod Reopen
pub mod Node
pub mod Transport
pub mod Run
pub mod Program
pub mod ListMemory
mod Tests
use shard_db.Base.{ℕ, Bool, true, false, Option, none, some, List, [], ◌∷◌, ◌==◌, if◌then◌else◌}
use shard_db.Base.Result.{Result, ok, err}
use shard_db.Bytes.{Bytes, codes}
use shard_db.Wal.{Wal, WalError, handler_error, Handler, append, iterate}

-- Record
pub record Record : Type 0 where
  pub typ : ℕ
  pub data_ : Bytes

abbrev pub record_entry : ℕ
record_entry = 1

abbrev pub record_hard_state : ℕ
record_hard_state = 2

abbrev pub record_snapshot : ℕ
record_snapshot = 3

-- What the code uses of raft.MemoryStorage, of the Marshal and Unmarshal methods of raftpb and of
-- encoding/json for a Record. Append panics (`none`) where entries are missing in between, and
-- CreateSnapshot where the index is behind the last one. Compact is called with an index at which
-- CreateSnapshot has succeeded, and does not panic there.
pub record RaftLibrary : Type 1 where
  pub Memory : Type 0
  pub Entry : Type 0
  pub HardState : Type 0
  pub Snapshot : Type 0
  pub ConfState : Type 0
  pub new_memory_storage : Memory
  pub append_entries : List Entry → Memory → Option Memory
  pub set_hard_state : HardState → Memory → Memory
  pub apply_snapshot_memory : Snapshot → Memory → Result Bytes Memory
  pub create_snapshot_memory :
      ℕ → ConfState → Bytes → Memory → Option (Result Bytes (Memory × Snapshot))
  pub compact : ℕ → Memory → Result Bytes Memory
  pub is_empty_hard_state : HardState → Bool
  pub marshal_entry : Entry → Bytes
  pub unmarshal_entry : Bytes → Option Entry
  pub marshal_hard_state : HardState → Bytes
  pub unmarshal_hard_state : Bytes → Option HardState
  pub marshal_snapshot : Snapshot → Bytes
  pub unmarshal_snapshot : Bytes → Option Snapshot
  pub marshal_record : Record → Bytes
  pub unmarshal_record : Bytes → Option Record

pub record DiskStorage (R : RaftLibrary) : Type 0 where
  pub memory : R.Memory
  pub wal : Wal

module _ (R : RaftLibrary) where
  -- A panic stays one.
  abbrev pub bind : Option R.Memory → (R.Memory → Option R.Memory) → Option R.Memory
  bind none f = none
  bind (some m) f = f m

  -- `mem.ApplySnapshot(snap)`, whose error is ignored
  unfoldable pub try_snapshot : R.Snapshot → R.Memory → Option R.Memory
  try_snapshot snap m = elim (R.apply_snapshot_memory snap m) [ ok m' ↦ some m' | err e ↦ some m ]

  -- the handler that NewDiskStorage gives to Iterate
  unfoldable pub replay : Handler (Option R.Memory)
  replay data_ mem =
      let failed : Option R.Memory × Result WalError (Unit {0}) =
        (mem, err (handler_error (codes "unmarshal"))) in
      elim (R.unmarshal_record data_) [
        | none ↦ failed
        | some r ↦
            if r.typ == record_entry
            then elim (R.unmarshal_entry r.data_) [
              | none ↦ failed
              | some ent ↦ (bind mem (R.append_entries (ent ∷ [])), ok tt)
            ]
            else if r.typ == record_hard_state
            then elim (R.unmarshal_hard_state r.data_) [
              | none ↦ failed
              | some hs ↦ (bind mem (λ m. some (R.set_hard_state hs m)), ok tt)
            ]
            else if r.typ == record_snapshot
            then elim (R.unmarshal_snapshot r.data_) [
              | none ↦ failed
              | some snap ↦ (bind mem (try_snapshot snap), ok tt)
            ]
            else (mem, ok tt)
      ]

  -- NewDiskStorage, on the file that wal.Open opens. A panic of the replay ends it, whatever the
  -- records behind it are.
  unfoldable pub new_disk_storage : Wal → Result WalError (Option (DiskStorage R))
  new_disk_storage w =
      let (mem, result) = iterate replay w (some R.new_memory_storage) in
      elim mem [
        | none ↦ ok none
        | some m ↦ elim result [ err e ↦ err e | ok _ ↦ ok (some (record { memory = m; wal = w })) ]
      ]

  -- writeRecord
  unfoldable pub write_record : ℕ → Bytes → Wal → Wal
  write_record typ data_ w = append (R.marshal_record (record { typ = typ; data_ = data_ })) w

  -- the loop of Save over the entries
  unfoldable pub write_entries : List R.Entry → Wal → Wal
  unfolding write_record
  write_entries [] w = w
  write_entries (ent ∷ entries) w =
      write_entries entries (write_record record_entry (R.marshal_entry ent) w)

  -- Save
  unfoldable pub save : List R.Entry → R.HardState → DiskStorage R → Option (DiskStorage R)
  save entries state ds =
      let written = write_entries entries ds.wal in
      let persisted =
        (if R.is_empty_hard_state state
          then written
          else write_record record_hard_state (R.marshal_hard_state state) written) in
      elim (R.append_entries entries ds.memory) [
        | none ↦ none
        | some m ↦ some (record {
          memory = if R.is_empty_hard_state state then m else R.set_hard_state state m;
          wal = persisted;
        })
      ]

  -- CreateSnapshot; `none` is a panic
  unfoldable pub create_snapshot :
      ℕ → R.ConfState → Bytes → DiskStorage R → Option (DiskStorage R × Result Bytes R.Snapshot)
  create_snapshot i cs data_ ds = elim (R.create_snapshot_memory i cs data_ ds.memory) [
    | none ↦ none
    | some (err e) ↦ some (ds, err e)
    | some (ok (m, snap)) ↦
        let w = write_record record_snapshot (R.marshal_snapshot snap) ds.wal in
        some (elim (R.compact i m) [
          | err e ↦ (record { memory = m; wal = w }, err e)
          | ok m' ↦ (record { memory = m'; wal = w }, ok snap)
        ])
  ]

  -- ApplySnapshot
  unfoldable pub apply_snapshot :
      R.Snapshot → DiskStorage R → DiskStorage R × Result Bytes (Unit {0})
  apply_snapshot snap ds = elim (R.apply_snapshot_memory snap ds.memory) [
    | err e ↦ (ds, err e)
    | ok m ↦ (
      record { memory = m; wal = write_record record_snapshot (R.marshal_snapshot snap) ds.wal },
      ok tt,
    )
  ]
