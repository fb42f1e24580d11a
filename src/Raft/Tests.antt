-- ===== src/Raft/Tests.antt =====
-- A small storage in memory, and the theorem at a run on it. An entry is its index, a snapshot is the
-- index that it ends at.
use shard_db.Base.{
  true, false, ℕ, ◌+◌, ◌≡◌, refl, Option, none, some, List, [], ◌∷◌, ◌++◌, ltb, leb, if◌then◌else◌,
  ◌==◌, arith,
}
use shard_db.Base.Result.{ok, err}
use shard_db.Bytes.{Bytes, codes}
use shard_db.Wal.{Wal, append}
use shard_db.Raft.{
  Record, RaftLibrary, DiskStorage, new_disk_storage, save, create_snapshot, write_record,
  write_entries,
}
use shard_db.Raft.Recovery.{Laws}
use shard_db.Raft.Node.{
  apply_each, NodeLibrary, Ready, Node, handle_ready, apply_committed, snapshot_check, last_entry,
}
use shard_db.Raft.Run.{
  RunLibrary, Event, Running, selected, proposed, stepped, done, ticked, ready, run, run_event,
  select, propose, step, run-machine, new_node, start_raft, disk_storage,
}
use shard_db.Raft.Reopen.{
  Reached, opened, saved, new_disk_storage-Reached, new_disk_storage-create_snapshot,
}

record Memory : Type 0 where
  snap : ℕ
  entries : List ℕ
  hard_state : ℕ

last_of : ℕ → List ℕ → ℕ
last_of n [] = n
last_of n (e ∷ es) = last_of e es

below : ℕ → List ℕ → List ℕ
below n [] = []
below n (e ∷ es) = let rest = below n es in if ltb e n then e ∷ rest else rest

above : ℕ → List ℕ → List ℕ
above n [] = []
above n (e ∷ es) = let rest = above n es in if ltb n e then e ∷ rest else rest

-- MemoryStorage.Append of one entry
append_one : ℕ → Memory → Option Memory
append_one e m =
    if leb e m.snap
    then some m
    else if ltb (last_of m.snap m.entries + 1) e
    then none
    else some (record m { entries = below e m.entries ++ e ∷ [] })

append_list : List ℕ → Memory → Option Memory
append_list [] m = some m
append_list (e ∷ es) m = elim (append_one e m) [ none ↦ none | some m' ↦ append_list es m' ]

decode_record : Bytes → Option Record
decode_record [] = none
decode_record (t ∷ b) = some (record { typ = t; data_ = b })

decode_number : Bytes → Option ℕ
decode_number [] = none
decode_number (n ∷ b) = some n

abbrev library : RaftLibrary
library = record {
  Memory = Memory;
  Entry = ℕ;
  HardState = ℕ;
  Snapshot = ℕ;
  ConfState = Unit;
  new_memory_storage = record { snap = 0; entries = []; hard_state = 0 };
  append_entries = append_list;
  set_hard_state = λ h m. record m { hard_state = h };
  apply_snapshot_memory = λ s m.
      if leb s m.snap then err (codes "out of date") else ok (record m { snap = s; entries = [] });
  create_snapshot_memory = λ i cs b m.
      if leb i m.snap
      then some (err (codes "out of date"))
      else if ltb (last_of m.snap m.entries) i
      then none
      else some (ok (m, i));
  compact = λ i m. ok (record m { snap = i; entries = above i m.entries });
  is_empty_hard_state = λ h. h == 0;
  marshal_entry = λ e. e ∷ [];
  unmarshal_entry = decode_number;
  marshal_hard_state = λ h. h ∷ [];
  unmarshal_hard_state = decode_number;
  marshal_snapshot = λ s. s ∷ [];
  unmarshal_snapshot = decode_number;
  marshal_record = λ r. r.typ ∷ r.data_;
  unmarshal_record = decode_record;
}

append_list-nil : (m : Memory) → append_list [] m ≡ some m
unfolding append_list
append_list-nil m = refl

append_list-cons :
    (e f : ℕ) (es : List ℕ) (m : Memory)
    → append_list (e ∷ f ∷ es) m
      ≡ elim (append_list (e ∷ []) m) [ none ↦ none | some m' ↦ append_list (f ∷ es) m' ]
unfolding append_list
append_list-cons e f es m = ground arith

laws : Laws library
unfolding decode_record decode_number
laws = record {
  index = λ e. e;
  unmarshal_record_lem = λ r. refl;
  unmarshal_entry_lem = λ e. refl;
  unmarshal_hard_state_lem = λ h. refl;
  unmarshal_snapshot_lem = λ s. refl;
  append_entries-nil = append_list-nil;
  append_entries-cons = λ e f es m next. ground (arith, append_list-cons e f es m);
}

abbrev file : Wal
file = record { f = []; path = codes "data/shard-1" }

abbrev fresh : DiskStorage library
fresh = record { memory = record { snap = 0; entries = []; hard_state = 0 }; wal = file }

-- The file after Save of three entries and a hard state.
abbrev written : Wal
written = append (2 ∷ 7 ∷ []) (append (1 ∷ 3 ∷ []) (append (1 ∷ 2 ∷ []) (append (1 ∷ 1 ∷ []) file)))

abbrev three : DiskStorage library
three = record {
  memory = record { snap = 0; entries = 1 ∷ 2 ∷ 3 ∷ []; hard_state = 7 };
  wal = written;
}

three-save : save library (1 ∷ 2 ∷ 3 ∷ []) 7 fresh ≡ some three
unfolding save write_entries write_record append_list append_one last_of below
three-save = refl

three-Reached : Reached library laws file three
unfolding laws
three-Reached =
    saved fresh three (1 ∷ 2 ∷ 3 ∷ []) 7 opened (refl, (refl, tt))
      (omega arith, (omega arith, (omega arith, (omega arith, tt)))) three-save

new_disk_storage-Reached_example : new_disk_storage library written ≡ ok (some three)
new_disk_storage-Reached_example =
    new_disk_storage-Reached library laws file three refl three-Reached

-- The file after a snapshot at 2.
abbrev cut : Wal
cut = append (3 ∷ 2 ∷ []) written

-- The live memory keeps entry 3; opened again, it has lost it.
new_disk_storage-create_snapshot_example :
    (create_snapshot library 2 tt [] three
      ≡ some (
        record { memory = record { snap = 2; entries = 3 ∷ []; hard_state = 7 }; wal = cut },
        ok 2,
      ))
    × (new_disk_storage library cut
        ≡ ok (
            some
              (record { memory = record { snap = 2; entries = []; hard_state = 7 }; wal = cut })))
unfolding above last_of
new_disk_storage-create_snapshot_example =
    new_disk_storage-create_snapshot library laws file 2 tt [] three three.memory
      (record { snap = 2; entries = 3 ∷ []; hard_state = 7 })
      (record { snap = 2; entries = []; hard_state = 7 }) 2 refl three-Reached (omega arith, tt)
      refl refl refl

abbrev node_library : NodeLibrary library
node_library = record {
  Message = ℕ;
  Machine = List ℕ;
  is_normal = λ e. leb e 2;
  entry_data = λ e. e ∷ [];
  entry_index = λ e. e;
  first_index = λ m. m.snap + 1;
  is_empty_snap = λ s. s == 0;
  snapshot_data = λ s. s ∷ [];
  voters = tt;
  apply = λ e m. m ++ e ∷ [];
  get_snapshot = λ m. ok m;
  restore = λ b m. b;
}

abbrev started : Node library node_library
started = record { storage = fresh; machine = []; sent = [] }

abbrev ran : Node library node_library
ran = record { storage = three; machine = 1 ∷ 2 ∷ []; sent = 10 ∷ 11 ∷ [] }

-- etcd's raft.Node as the number of calls that it got.
abbrev run_library : RunLibrary library node_library
run_library = record {
  RaftNode = ℕ;
  start_node = λ id peers. 0;
  restart_node = λ id m. 0;
  last_index = λ m. last_of m.snap m.entries;
  tick = λ n. n + 1;
  advance = λ n. n + 1;
  stop = λ n. n + 1;
  propose = λ data_ n. (n + 1, ok tt);
  step = λ msg n. (n + 1, ok tt);
}

abbrev first : Ready library node_library
first = record {
  entries = 1 ∷ 2 ∷ 3 ∷ [];
  hard_state = 7;
  messages = 10 ∷ [];
  committed_entries = 1 ∷ [];
  snap = 0;
}

abbrev second : Ready library node_library
second = record {
  entries = [];
  hard_state = 0;
  messages = 11 ∷ [];
  committed_entries = 2 ∷ 3 ∷ [];
  snap = 0;
}

-- Entry 3 is not normal. A Ready value behind the stop is not taken.
abbrev events : List (Event run_library)
events =
    proposed (codes "a")
    ∷ selected ticked
    ∷ selected (ready first)
    ∷ stepped 12
    ∷ selected (ready second)
    ∷ selected done
    ∷ selected (ready first)
    ∷ []

abbrev begun : Running run_library
begun = record { node = started; raft_node = 0; stopped = false }

abbrev ended : Running run_library
ended = record { node = ran; raft_node = 6; stopped = true }

events-run : run run_library events begun ≡ some ended
unfolding run_event select propose step handle_ready apply_committed snapshot_check last_entry save
    write_entries write_record append_list append_one last_of below
events-run = refl

run-machine_example :
    (ran.machine ≡ apply_each node_library (1 ∷ 2 ∷ []) []) × (ran.sent ≡ 10 ∷ 11 ∷ [])
run-machine_example = run-machine run_library events begun ended refl (refl, (refl, tt)) events-run

-- A node that is created on the file of a storage restarts from its memory.
created :
    new_node run_library (record { id = 1; peers = 1 ∷ []; wal = some written })
    ≡ ok (
        some (
          start_raft run_library
            (record { id = 1; peers = 1 ∷ []; wal = some written })
            (disk_storage three)))
unfolding new_node
created = ground (arith, new_disk_storage-Reached library laws file three refl three-Reached)
