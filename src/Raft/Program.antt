-- ===== src/Raft/Program.antt =====
-- A program around a node of internal/raft/node.go: cmd/shard-node/main.go and cmd/meta-node/main.go
-- start one, run it, and have handlers that use it.
use shard_db.Base.{
  ℕ, ◌≡◌, refl, ap, ◌∙◌, Bool, true, false, Option, none, some, List, [], ◌∷◌, ◌++◌, All, arith,
  if◌then◌else◌, inl, inr, Option-cases,
}
use shard_db.Base.Result.{Result, ok, err}
use shard_db.Bytes.{Bytes}
use shard_db.Raft.{RaftLibrary}
use shard_db.Raft.Node.{NodeLibrary, handle_ready, handle_ready-machine, apply_committed}
use shard_db.Raft.Run.{
  RunLibrary, Running, Case, done, ticked, ready, Created, disk_storage, memory_storage_wrapper,
  select,
}
use shard_db.Raft.Transport.{MessageCodec}
use shard_db.Wal.{WalError}

-- What the loop of raft uses of etcd's raft and raftpb, without the applier.
pub record Etcd (R : RaftLibrary) : Type 1 where
  pub codec : MessageCodec
  pub is_normal : R.Entry → Bool
  pub entry_data : R.Entry → Bytes
  pub entry_index : R.Entry → ℕ
  pub first_index : R.Memory → ℕ
  pub is_empty_snap : R.Snapshot → Bool
  pub snapshot_data : R.Snapshot → Bytes
  pub voters : R.ConfState

-- Why the start of a program fails; no_file stands for a storage without a file, which the path that
-- both programs set rules out.
pub data StartError : Type 0 where
  flag_panic : StartError
  replay_panic : StartError
  wal_failed : WalError → StartError
  no_file : StartError

module _ {R : RaftLibrary} {N : NodeLibrary R} (L : RunLibrary R N) where
  -- The node that NewNode makes, with the state of the applier that it is given.
  unfoldable pub running : N.Machine → Created R N L → Result StartError (Running L)
  running machine created = elim created.storage [
    | memory_storage_wrapper m ↦ err no_file
    | disk_storage ds ↦ ok (record {
      node = record { storage = ds; machine = machine; sent = [] };
      raft_node = created.raft_node;
      stopped = false;
    })
  ]

  -- What becomes of the result of NewNode in main.
  unfoldable pub started :
      N.Machine → Result WalError (Option (Created R N L)) → Result StartError (Running L)
  unfolding running
  started machine (err f) = err (wal_failed f)
  started machine (ok none) = err replay_panic
  started machine (ok (some created)) = running machine created

  -- What happens to a program: a request, or a case of the select of Run.
  pub data Happening (Q : Type 0) : Type 0 where
    requested : Q → Happening Q
    selected : Case L → Happening Q

  module _ {Q : Type 0} (handle : Q → Running L → Running L) where
    -- A Ready, with all that it commits, is one step. `none` is a panic of Save.
    unfoldable pub happen : Happening Q → Running L → Option (Running L)
    happen (requested q) n = some (handle q n)
    happen (selected k) n = if n.stopped then some n else select L k n

    unfoldable pub serve : List (Happening Q) → Running L → Option (Running L)
    unfolding happen
    serve [] n = some n
    serve (h ∷ hs) n = elim (happen h n) [ none ↦ none | some n' ↦ serve hs n' ]

  -- The entries that are handed to the program as committed, until Run returns.
  abbrev pub committed : {Q : Type 0} → Bool → List (Happening Q) → List R.Entry
  committed stopped [] = []
  committed stopped (requested q ∷ hs) = committed stopped hs
  committed stopped (selected done ∷ hs) = committed true hs
  committed stopped (selected ticked ∷ hs) = committed stopped hs
  committed true (selected (ready rd) ∷ hs) = committed true hs
  committed false (selected (ready rd) ∷ hs) = rd.committed_entries ++ committed false hs

  -- No Ready has a snapshot.
  abbrev pub HasNoSnapshot : {Q : Type 0} → Happening Q → Type 0
  HasNoSnapshot (requested q) = Unit
  HasNoSnapshot (selected done) = Unit
  HasNoSnapshot (selected ticked) = Unit
  HasNoSnapshot (selected (ready rd)) = N.is_empty_snap rd.snap ≡ true

  module _ {Q : Type 0} (handle : Q → Running L → Running L)
      (effect : Q → N.Machine → N.Machine) where
    -- What the handlers and the committed entries make of the state of the applier.
    abbrev pub effects : Bool → List (Happening Q) → N.Machine → N.Machine
    effects stopped [] m = m
    effects stopped (requested q ∷ hs) m = effects stopped hs (effect q m)
    effects stopped (selected done ∷ hs) m = effects true hs m
    effects stopped (selected ticked ∷ hs) m = effects stopped hs m
    effects true (selected (ready rd) ∷ hs) m = effects true hs m
    effects false (selected (ready rd) ∷ hs) m =
        effects false hs (apply_committed N rd.committed_entries m)

    -- A handler has its effect, and the node runs on.
    abbrev pub HasEffect : Type 0
    HasEffect =
        (q : Q) (n : Running L)
        → ((handle q n).node.machine ≡ effect q n.node.machine) × ((handle q n).stopped ≡ n.stopped)

    pub serve-effects :
        (stopped : Bool) (hs : List (Happening Q)) (n n' : Running L)
        → HasEffect
        → n.stopped ≡ stopped
        → All HasNoSnapshot hs
        → serve handle hs n ≡ some n'
        → n'.node.machine ≡ effects stopped hs n.node.machine
    unfolding serve happen select
    serve-effects b [] n n' f st bare h = ground arith
    serve-effects b (requested q ∷ hs) n n' f st bare h =
        serve-effects b hs (handle q n) n' f ((f q n).1 ∙ st) bare.1 h ∙ ap (effects b hs) (f q n).0
    serve-effects true (selected done ∷ hs) n n' f st bare h =
        serve-effects true hs n n' f st bare.1 (ground arith)
    serve-effects true (selected ticked ∷ hs) n n' f st bare h =
        serve-effects true hs n n' f st bare.1 (ground arith)
    serve-effects true (selected (ready rd) ∷ hs) n n' f st bare h =
        serve-effects true hs n n' f st bare.1 (ground arith)
    serve-effects false (selected done ∷ hs) n n' f st bare h =
        serve-effects true hs (record n { raft_node = L.stop n.raft_node; stopped = true }) n' f
          refl bare.1 (ground arith)
    serve-effects false (selected ticked ∷ hs) n n' f st bare h =
        serve-effects false hs (record n { raft_node = L.tick n.raft_node }) n' f st bare.1
          (ground arith)
    serve-effects false (selected (ready rd) ∷ hs) n n' f st bare h =
        elim (Option-cases (handle_ready N rd n.node)) [
          | inl panic ↦ absurd (ground arith)
          | inr (k, handled) ↦
              let (made, sent) = handle_ready-machine N rd n.node k bare.0 handled in
              serve-effects false hs (record n { node = k; raft_node = L.advance n.raft_node }) n' f
                st bare.1 (ground arith)
              ∙ ap (effects false hs) made
        ]
