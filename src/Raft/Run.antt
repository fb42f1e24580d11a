-- ===== src/Raft/Run.antt =====
-- internal/raft/node.go: NewNode, the storage in memory alone, Propose, Step, and the loop of Run as a
-- sequence of the events that its select takes. etcd's raft.Node is a parameter.
use shard_db.Base.{
  ℕ, ◌≡◌, refl, sym, ap, ◌∙◌, Bool, true, false, Option, none, some, List, [], ◌∷◌, ◌++◌, All,
  arith, if◌then◌else◌, inl, inr, Option-cases, ltb,
}
use shard_db.Base.Result.{Result, ok, err}
use shard_db.Bytes.{Bytes}
use shard_db.Raft.{RaftLibrary, DiskStorage, new_disk_storage}
use shard_db.Raft.Node.{
  normal_entries, apply_each, apply_committed-normal_entries, NodeLibrary, Ready, Node,
  handle_ready, run_all, run_all-machine, all_committed, all_messages,
}
use shard_db.Wal.{Wal, WalError}

-- Config, with the file that wal.Open opens at the path in the place of the path; `none` is the empty
-- path.
pub record Config : Type 0 where
  pub id : ℕ
  pub peers : List ℕ
  pub wal : Option Wal

-- What the code uses of raft.Node and of raft.Storage besides. The methods of raft.Node may fail.
pub record RunLibrary (R : RaftLibrary) (N : NodeLibrary R) : Type 1 where
  pub RaftNode : Type 0
  pub start_node : ℕ → List ℕ → RaftNode
  pub restart_node : ℕ → R.Memory → RaftNode
  pub last_index : R.Memory → ℕ
  pub tick : RaftNode → RaftNode
  pub advance : RaftNode → RaftNode
  pub stop : RaftNode → RaftNode
  pub propose : Bytes → RaftNode → RaftNode × Result Bytes (Unit {0})
  pub step : N.Message → RaftNode → RaftNode × Result Bytes (Unit {0})

-- The two implementations of Storage.
pub data Storage (R : RaftLibrary) : Type 0 where
  disk_storage : DiskStorage R → Storage R
  memory_storage_wrapper : R.Memory → Storage R

-- Save of memoryStorageWrapper; `none` is a panic of Append.
unfoldable pub save_memory :
    (R : RaftLibrary) → List R.Entry → R.HardState → R.Memory → Option R.Memory
save_memory R entries state m = elim (R.append_entries entries m) [
  | none ↦ none
  | some m' ↦ some (if R.is_empty_hard_state state then m' else R.set_hard_state state m')
]

abbrev pub memory_of : {R : RaftLibrary} → Storage R → R.Memory
memory_of (disk_storage ds) = ds.memory
memory_of (memory_storage_wrapper m) = m

-- What NewNode returns, besides the id, the transport and the applier, which it is given.
pub record Created (R : RaftLibrary) (N : NodeLibrary R) (L : RunLibrary R N) : Type 0 where
  pub raft_node : L.RaftNode
  pub storage : Storage R

module _ {R : RaftLibrary} {N : NodeLibrary R} (L : RunLibrary R N) where
  -- the end of NewNode: FirstIndex and LastIndex of a storage in memory do not fail
  unfoldable pub start_raft : Config → Storage R → Created R N L
  start_raft cfg storage = record {
    raft_node =
        if ltb 0 (L.last_index (memory_of storage))
        then L.restart_node cfg.id (memory_of storage)
        else L.start_node cfg.id cfg.peers;
    storage = storage;
  }

  -- NewNode; `ok none` is a panic of the replay.
  unfoldable pub new_node : Config → Result WalError (Option (Created R N L))
  unfolding start_raft
  new_node cfg = elim cfg.wal [
    | none ↦ ok (some (start_raft cfg (memory_storage_wrapper R.new_memory_storage)))
    | some w ↦ elim (new_disk_storage R w) [
      | err e ↦ err e
      | ok none ↦ ok none
      | ok (some ds) ↦ ok (some (start_raft cfg (disk_storage ds)))
    ]
  ]

  -- A case of the select.
  pub data Case : Type 0 where
    done : Case
    ticked : Case
    ready : Ready R N → Case

  -- A case that Run takes, or a call of Propose or of Step by a handler in between.
  pub data Event : Type 0 where
    selected : Case → Event
    proposed : Bytes → Event
    stepped : N.Message → Event

  -- A node with a file, while it runs.
  pub record Running : Type 0 where
    pub node : Node R N
    pub raft_node : L.RaftNode
    pub stopped : Bool

  -- Propose and Step
  unfoldable pub propose : Bytes → Running → Running × Result Bytes (Unit {0})
  propose data_ s = let (rn, r) = L.propose data_ s.raft_node in (record s { raft_node = rn }, r)

  unfoldable pub step : N.Message → Running → Running × Result Bytes (Unit {0})
  step msg s = let (rn, r) = L.step msg s.raft_node in (record s { raft_node = rn }, r)

  -- the select of Run; `none` is a panic of Save
  unfoldable pub select : Case → Running → Option Running
  select done s = some (record s { raft_node = L.stop s.raft_node; stopped = true })
  select ticked s = some (record s { raft_node = L.tick s.raft_node })
  select (ready rd) s = elim (handle_ready N rd s.node) [
    | none ↦ none
    | some n ↦ some (record s { node = n; raft_node = L.advance s.raft_node })
  ]

  -- an event; once Run has returned, only Propose and Step reach the node
  unfoldable pub run_event : Event → Running → Option Running
  unfolding select
  run_event (proposed data_) s = some (propose data_ s).0
  run_event (stepped msg) s = some (step msg s).0
  run_event (selected e) s = if s.stopped then some s else select e s

  abbrev pub run : List Event → Running → Option Running
  run [] s = some s
  run (e ∷ es) s = elim (run_event e s) [ none ↦ none | some s' ↦ run es s' ]

  -- The Ready values that Run takes before it returns.
  abbrev pub taken : List Event → List (Ready R N)
  taken [] = []
  taken (selected done ∷ es) = []
  taken (selected ticked ∷ es) = taken es
  taken (selected (ready rd) ∷ es) = rd ∷ taken es
  taken (proposed data_ ∷ es) = taken es
  taken (stepped msg ∷ es) = taken es

  run_event-stopped :
      (e : Event) (s : Running)
      → s.stopped ≡ true
      → (s' : Running) × (run_event e s ≡ some s') × (s'.stopped ≡ true) × (s'.node ≡ s.node)
  unfolding run_event propose step
  run_event-stopped (selected e) s h = (s, ground arith, h, refl)
  run_event-stopped (proposed data_) s h = ((propose data_ s).0, refl, h, refl)
  run_event-stopped (stepped msg) s h = ((step msg s).0, refl, h, refl)

  run-stopped :
      (es : List Event) (s s' : Running) → s.stopped ≡ true → run es s ≡ some s' → s'.node ≡ s.node
  run-stopped [] s s' h r = ground arith
  run-stopped (e ∷ es) s s' h r =
      let (next, one, still, same) = run_event-stopped e s h in
      run-stopped es next s' still (ground arith) ∙ same

  -- An event of a node that runs: what is left of the events has the same node behind it.
  run-taken :
      (es : List Event) (s s' : Running)
      → s.stopped ≡ false
      → run es s ≡ some s'
      → run_all N (taken es) s.node ≡ some s'.node
  unfolding run_event select propose step
  run-taken [] s s' h r = ground arith
  run-taken (selected done ∷ es) s s' h r = ap some (
      sym (
        run-stopped es (record s { raft_node = L.stop s.raft_node; stopped = true }) s' refl
          (ground arith)))
  run-taken (selected ticked ∷ es) s s' h r =
      run-taken es (record s { raft_node = L.tick s.raft_node }) s' h (ground arith)
  run-taken (selected (ready rd) ∷ es) s s' h r = elim (Option-cases (handle_ready N rd s.node)) [
    | inl panic ↦ absurd (ground arith)
    | inr (n, e) ↦
        let rest =
          run-taken es (record s { node = n; raft_node = L.advance s.raft_node }) s' h
            (ground arith) in
        ground arith
  ]
  run-taken (proposed data_ ∷ es) s s' h r = run-taken es (propose data_ s).0 s' h r
  run-taken (stepped msg ∷ es) s s' h r = run-taken es (step msg s).0 s' h r

  -- When no snapshot is received, and no Save and no CreateSnapshot panics, the applier's state after any sequence of ticks,
  -- Ready values, proposals, messages and at last a stop is the fold of Apply over the committed
  -- entries, in order, that are normal and not empty, of all Ready values up to the stop. It does
  -- not depend on how the entries are spread over the Ready values, on the ticks, on what is
  -- proposed, or on when the node takes snapshots of its own; what comes behind the stop changes
  -- nothing. The messages of these Ready values have gone out in order.
  pub run-machine :
      (es : List Event) (s s' : Running)
      → s.stopped ≡ false
      → All (λ rd. N.is_empty_snap rd.snap ≡ true) (taken es)
      → run es s ≡ some s'
      → (s'.node.machine
          ≡ apply_each N (normal_entries N (all_committed N (taken es))) s.node.machine)
        × (s'.node.sent ≡ s.node.sent ++ all_messages N (taken es))
  run-machine es s s' running empty r =
      let (machine, sent) =
        run_all-machine N (taken es) s.node s'.node empty (run-taken es s s' running r) in
      (machine ∙ apply_committed-normal_entries N (all_committed N (taken es)) s.node.machine, sent)
