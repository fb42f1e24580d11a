-- ===== src/Raft/Reopen.antt =====
-- A node that is started again from the log file that it has written.
use mathlib.Core.Path.{subst}
use shard_db.Base.{
  ℕ, ◌<◌, ◌^◌, ◌≡◌, refl, sym, ap, ◌∙◌, Option, some, List, [], ◌∷◌, ◌++◌, All, All-append, length,
  arith, inl, inr, ◌⊎◌,
}
use shard_db.Base.Result.{Result, ok, err}
use shard_db.Bytes.{Bytes}
use shard_db.Wal.{Wal, iterate, append}
use shard_db.Wal.Frame.{append_all}
use shard_db.Wal.Replay.{handle_all, iterate-append_all}
use shard_db.Raft.{
  RaftLibrary, DiskStorage, record_snapshot, try_snapshot, replay, new_disk_storage, write_record,
  save, apply_snapshot, create_snapshot,
}
use shard_db.Raft.Recovery.{
  Laws, IsRun, bytes_of, save_records, append_all-append, handle_all-append, handle-save,
  handle_all-end, handle-step, replay-snapshot, save_lem,
}

module _ (R : RaftLibrary) (laws : Laws R) (w : Wal) where
  -- A record's length fits the 32 bits in which the log file keeps it.
  abbrev pub Fits : List Bytes → Type 0
  Fits records = All (λ d. length d < 2 ^ 32) records

  -- What the storage of a node can be after the file was opened empty: Save of a Ready whose entries
  -- have consecutive indexes and do not leave a gap, and ApplySnapshot, in any order.
  pub data Reached : DiskStorage R → Type 0 where
    opened : Reached (record { memory = R.new_memory_storage; wal = w })
    saved :
        (ds ds' : DiskStorage R) (entries : List R.Entry) (state : R.HardState)
        → Reached ds
        → IsRun R laws entries
        → Fits (save_records R laws entries state)
        → save R entries state ds ≡ some ds'
        → Reached ds'
    received :
        (ds : DiskStorage R) (snap : R.Snapshot)
        → Reached ds
        → Fits (bytes_of R laws record_snapshot (R.marshal_snapshot snap) ∷ [])
        → Reached (apply_snapshot R snap ds).0

  -- The file is the records, and their replay gives the memory.
  record IsRecorded (ds : DiskStorage R) : Type 0 where
    records : List Bytes
    written : ds.wal ≡ append_all records w
    fits : Fits records
    replayed :
        handle_all (replay R) records (λ s. (s, ok tt)) (some R.new_memory_storage)
        ≡ (some ds.memory, ok tt)

  opened-IsRecorded : IsRecorded (record { memory = R.new_memory_storage; wal = w })
  opened-IsRecorded = record { records = []; written = refl; fits = tt; replayed = refl }

  -- More records, whose replay takes the memory on.
  more :
      (ds ds' : DiskStorage R) (new : List Bytes)
      → IsRecorded ds
      → ds'.wal ≡ append_all new ds.wal
      → Fits new
      → handle_all (replay R) new (λ s. (s, ok tt)) (some ds.memory) ≡ (some ds'.memory, ok tt)
      → IsRecorded ds'
  more ds ds' new r e f h = record {
    records = r.records ++ new;
    written = e ∙ ap (append_all new) r.written ∙ sym (append_all-append r.records new w);
    fits = All-append (λ d. length d < 2 ^ 32) r.records new r.fits f;
    replayed =
        handle_all-append (replay R) r.records new (λ s. (s, ok tt)) (some R.new_memory_storage)
        ∙ handle_all-end (replay R) r.records (λ s. handle_all (replay R) new (λ s. (s, ok tt)) s)
            (some R.new_memory_storage) (some ds.memory) r.replayed
        ∙ h;
  }

  Answer-cases :
      (r : Result Bytes R.Memory) → ((e : Bytes) × (r ≡ err e)) ⊎ ((m : R.Memory) × (r ≡ ok m))
  Answer-cases (err e) = inl (e, refl)
  Answer-cases (ok m) = inr (m, refl)

  apply_snapshot-refused :
      (snap : R.Snapshot) (ds : DiskStorage R) (e : Bytes)
      → R.apply_snapshot_memory snap ds.memory ≡ err e
      → (apply_snapshot R snap ds).0 ≡ ds
  unfolding apply_snapshot
  apply_snapshot-refused snap ds e h = ground arith

  apply_snapshot-taken :
      (snap : R.Snapshot) (ds : DiskStorage R) (m : R.Memory)
      → R.apply_snapshot_memory snap ds.memory ≡ ok m
      → (apply_snapshot R snap ds).0 ≡ record {
        memory = m;
        wal = append (bytes_of R laws record_snapshot (R.marshal_snapshot snap)) ds.wal;
      }
  unfolding apply_snapshot write_record
  apply_snapshot-taken snap ds m h = ground arith

  try-taken :
      (snap : R.Snapshot) (before m : R.Memory)
      → R.apply_snapshot_memory snap before ≡ ok m
      → try_snapshot R snap before ≡ some m
  unfolding try_snapshot
  try-taken snap before m h = ground arith

  received-IsRecorded :
      (before : DiskStorage R) (snap : R.Snapshot)
      → IsRecorded before
      → Fits (bytes_of R laws record_snapshot (R.marshal_snapshot snap) ∷ [])
      → IsRecorded (apply_snapshot R snap before).0
  received-IsRecorded before snap r fits =
      elim (Answer-cases (R.apply_snapshot_memory snap before.memory)) [
        | inl (e, h) ↦ subst IsRecorded (sym (apply_snapshot-refused snap before e h)) r
        | inr (m, h) ↦
            let d = bytes_of R laws record_snapshot (R.marshal_snapshot snap) in
            let after : DiskStorage R = record { memory = m; wal = append d before.wal } in
            subst IsRecorded (sym (apply_snapshot-taken snap before m h)) (
              more before after (d ∷ []) r refl fits (
                handle-step R laws d [] (λ s. (s, ok tt)) (some before.memory) (some m)
                  (replay-snapshot R laws snap (some before.memory)
                    ∙ ap (λ (o : Option R.Memory). (o, ok tt)) (try-taken snap before.memory m h))))
      ]

  Reached-IsRecorded : (ds : DiskStorage R) → Reached ds → IsRecorded ds
  Reached-IsRecorded ds opened = opened-IsRecorded
  Reached-IsRecorded ds (saved before ds' entries state reached run fits h) =
      let (m, e, memory, wal) = save_lem R laws entries state before ds h in
      more before ds (save_records R laws entries state) (Reached-IsRecorded before reached) wal
        fits
        (handle-save R laws entries state (λ s. (s, ok tt)) before.memory m run e
          ∙ ap (λ (x : R.Memory). (some x, ok tt)) (sym memory))
  Reached-IsRecorded ds (received before snap reached fits) =
      received-IsRecorded before snap (Reached-IsRecorded before reached) fits

  iterate-IsRecorded :
      (ds : DiskStorage R)
      → w.f ≡ []
      → IsRecorded ds
      → iterate (replay R) ds.wal (some R.new_memory_storage) ≡ (some ds.memory, ok tt)
  iterate-IsRecorded ds empty r =
      ap (λ v. iterate (replay R) v (some R.new_memory_storage)) r.written
      ∙ iterate-append_all (replay R) r.records w (some R.new_memory_storage) empty r.fits
      ∙ r.replayed

  reopened :
      (ds : DiskStorage R) → w.f ≡ [] → IsRecorded ds → new_disk_storage R ds.wal ≡ ok (some ds)
  unfolding new_disk_storage
  reopened ds empty r = ground (arith, iterate-IsRecorded ds empty r)

  -- If etcd's types can be marshalled and unmarshalled, and Append of entries with consecutive indexes
  -- is Append of one after the other: a storage that was opened on an empty file and then used by
  -- any sequence of Save, with consecutive entries, and ApplySnapshot, none of them a panic, is
  -- opened again from its file with the memory that it had: NewDiskStorage does not fail and does
  -- not panic.
  pub new_disk_storage-Reached :
      (ds : DiskStorage R) → w.f ≡ [] → Reached ds → new_disk_storage R ds.wal ≡ ok (some ds)
  new_disk_storage-Reached ds empty reached = reopened ds empty (Reached-IsRecorded ds reached)

  create_snapshot-kept :
      (i : ℕ) (cs : R.ConfState) (data_ : Bytes) (ds : DiskStorage R) (m kept : R.Memory)
      (snap : R.Snapshot)
      → R.create_snapshot_memory i cs data_ ds.memory ≡ some (ok (m, snap))
      → R.compact i m ≡ ok kept
      → create_snapshot R i cs data_ ds
        ≡ some (
          record {
            memory = kept;
            wal = append (bytes_of R laws record_snapshot (R.marshal_snapshot snap)) ds.wal;
          },
          ok snap,
        )
  unfolding create_snapshot write_record
  create_snapshot-kept i cs data_ ds m kept snap made compacted = ground arith

  -- If etcd's types can be marshalled and unmarshalled, and Append of entries with consecutive indexes
  -- is Append of one after the other: let a storage be one that Save and ApplySnapshot have written
  -- from an empty file on. Where MemoryStorage makes a snapshot and compacts, CreateSnapshot
  -- succeeds, and leaves the compacted memory and a file with the snapshot's record at its end. If
  -- ApplySnapshot of the snapshot on the memory before the call does not fail, then the storage that
  -- is opened again from this file has the memory that this ApplySnapshot makes, and not the
  -- compacted one.
  pub new_disk_storage-create_snapshot :
      (i : ℕ) (cs : R.ConfState) (data_ : Bytes) (ds : DiskStorage R) (m kept reset : R.Memory)
      (snap : R.Snapshot)
      → w.f ≡ []
      → Reached ds
      → Fits (bytes_of R laws record_snapshot (R.marshal_snapshot snap) ∷ [])
      → R.create_snapshot_memory i cs data_ ds.memory ≡ some (ok (m, snap))
      → R.compact i m ≡ ok kept
      → R.apply_snapshot_memory snap ds.memory ≡ ok reset
      → let v = append (bytes_of R laws record_snapshot (R.marshal_snapshot snap)) ds.wal in
        (create_snapshot R i cs data_ ds ≡ some (record { memory = kept; wal = v }, ok snap))
        × (new_disk_storage R v ≡ ok (some (record { memory = reset; wal = v })))
  new_disk_storage-create_snapshot i cs data_ ds m kept reset snap empty reached fits made compacted
        applied =
      let d = bytes_of R laws record_snapshot (R.marshal_snapshot snap) in
      let after : DiskStorage R = record { memory = reset; wal = append d ds.wal } in
      (
        create_snapshot-kept i cs data_ ds m kept snap made compacted,
        reopened after empty (
            more ds after (d ∷ []) (Reached-IsRecorded ds reached) refl fits (
              handle-step R laws d [] (λ s. (s, ok tt)) (some ds.memory) (some reset)
                (replay-snapshot R laws snap (some ds.memory)
                  ∙ ap (λ (o : Option R.Memory). (o, ok tt))
                      (try-taken snap ds.memory reset applied)))),
      )
