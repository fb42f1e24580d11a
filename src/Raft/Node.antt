-- ===== src/Raft/Node.antt =====
-- internal/raft/node.go: what the loop of Node.Run does with what raft makes ready. The applier, the
-- transport and raft are parameters.
use shard_db.Base.{
  List-cases, Bool-cases, false, ℕ, ◌-◌, ◌≡◌, refl, sym, ap, ◌∙◌, Bool, true, ◌&&◌, Option, none,
  some, List, [], ◌∷◌, ◌++◌, append_assoc, append-nil, length, ltb, if◌then◌else◌, All, arith, inl,
  inr, ◌⊎◌,
}
use shard_db.Base.Result.{Result, ok, err}
use shard_db.Bytes.{Bytes}
use shard_db.Raft.{RaftLibrary, DiskStorage, save, create_snapshot, apply_snapshot}

-- What the loop uses of raft and raftpb besides, with the applier's methods on its state.
pub record NodeLibrary (R : RaftLibrary) : Type 1 where
  pub Message : Type 0
  pub Machine : Type 0
  pub is_normal : R.Entry → Bool
  pub entry_data : R.Entry → Bytes
  pub entry_index : R.Entry → ℕ
  pub first_index : R.Memory → ℕ
  pub is_empty_snap : R.Snapshot → Bool
  pub snapshot_data : R.Snapshot → Bytes
  -- the ConfState with the voters 1, 2 and 3
  pub voters : R.ConfState
  pub apply : R.Entry → Machine → Machine
  pub get_snapshot : Machine → Result Bytes Bytes
  pub restore : Bytes → Machine → Machine

-- the Ready that the loop receives
pub record Ready (R : RaftLibrary) (N : NodeLibrary R) : Type 0 where
  pub entries : List R.Entry
  pub hard_state : R.HardState
  pub messages : List N.Message
  pub committed_entries : List R.Entry
  pub snap : R.Snapshot

-- The storage, the applier's state, and the messages that were handed to the transport.
pub record Node (R : RaftLibrary) (N : NodeLibrary R) : Type 0 where
  pub storage : DiskStorage R
  pub machine : N.Machine
  pub sent : List N.Message

length-empty : (b : Bytes) → b ≡ [] → ltb 0 (length b) ≡ false
length-empty b e = ap (λ (x : Bytes). ltb 0 (length x)) e

length-cons : (bs : Bytes) (c : ℕ) (cs : Bytes) → bs ≡ c ∷ cs → ltb 0 (length bs) ≡ true
length-cons bs c cs e = ap (λ (x : Bytes). ltb 0 (length x)) e ∙ ground arith

module _ {R : RaftLibrary} (N : NodeLibrary R) where
  -- the loop over the committed entries
  unfoldable pub apply_committed : List R.Entry → N.Machine → N.Machine
  apply_committed [] m = m
  apply_committed (e ∷ es) m =
      apply_committed es
        (if N.is_normal e && ltb 0 (length (N.entry_data e)) then N.apply e m else m)

  unfoldable pub last_entry : R.Entry → List R.Entry → R.Entry
  last_entry e [] = e
  last_entry e (f ∷ es) = last_entry f es

  -- the snapshot check; `none` is a panic of CreateSnapshot
  unfoldable pub snapshot_check : List R.Entry → N.Machine → DiskStorage R → Option (DiskStorage R)
  snapshot_check [] machine ds = some ds
  snapshot_check (e ∷ es) machine ds =
      let last_applied = N.entry_index (last_entry e es) in
      let fi = N.first_index ds.memory in
      if ltb fi last_applied && ltb 50 (last_applied - fi)
      then elim (N.get_snapshot machine) [
        | err _ ↦ some ds
        | ok data_ ↦ elim (create_snapshot R last_applied N.voters data_ ds) [
          | none ↦ none
          | some r ↦ some r.0
        ]
      ]
      else some ds

  -- the case of Ready; `none` is a panic of Save or of CreateSnapshot
  unfoldable pub handle_ready : Ready R N → Node R N → Option (Node R N)
  unfolding snapshot_check
  handle_ready rd n = elim (save R rd.entries rd.hard_state n.storage) [
    | none ↦ none
    | some saved ↦
        let machine = apply_committed rd.committed_entries n.machine in
        elim (snapshot_check rd.committed_entries machine saved) [
          | none ↦ none
          | some checked ↦ some (record {
            storage =
                if N.is_empty_snap rd.snap then checked else (apply_snapshot R rd.snap checked).0;
            machine =
                if N.is_empty_snap rd.snap
                then machine
                else N.restore (N.snapshot_data rd.snap) machine;
            sent = n.sent ++ rd.messages;
          })
        ]
  ]

  abbrev pub run_all : List (Ready R N) → Node R N → Option (Node R N)
  run_all [] n = some n
  run_all (rd ∷ rds) n = elim (handle_ready rd n) [ none ↦ none | some n' ↦ run_all rds n' ]

  -- The committed entries and the messages, in their order.
  abbrev pub all_committed : List (Ready R N) → List R.Entry
  all_committed [] = []
  all_committed (rd ∷ rds) = rd.committed_entries ++ all_committed rds

  abbrev pub all_messages : List (Ready R N) → List N.Message
  all_messages [] = []
  all_messages (rd ∷ rds) = rd.messages ++ all_messages rds

  pub apply_committed-append :
      (a b : List R.Entry) (m : N.Machine)
      → apply_committed (a ++ b) m ≡ apply_committed b (apply_committed a m)
  unfolding apply_committed
  apply_committed-append [] b m = refl
  apply_committed-append (e ∷ a) b m = apply_committed-append a b _

  -- The entries that are meant for the applier: the normal ones that are not empty. And Apply of
  -- entries, one after the other.
  abbrev pub normal_entries : List R.Entry → List R.Entry
  normal_entries [] = []
  normal_entries (e ∷ es) =
      let rest = normal_entries es in
      if N.is_normal e then elim (N.entry_data e) [ [] ↦ rest | b ∷ bs ↦ e ∷ rest ] else rest

  abbrev pub apply_each : List R.Entry → N.Machine → N.Machine
  apply_each [] m = m
  apply_each (e ∷ es) m = apply_each es (N.apply e m)

  pub apply_committed-normal_entries :
      (es : List R.Entry) (m : N.Machine) → apply_committed es m ≡ apply_each (normal_entries es) m
  unfolding apply_committed
  apply_committed-normal_entries [] m = refl
  apply_committed-normal_entries (e ∷ es) m = elim (List-cases (N.entry_data e)) [
    | inl empty ↦ ground (arith, apply_committed-normal_entries es m, length-empty (N.entry_data e))
    | inr (b, bs, h) ↦ elim (Bool-cases (N.is_normal e)) [
      | inl normal ↦ ground (
        arith,
        apply_committed-normal_entries es (N.apply e m),
        length-cons (N.entry_data e) b bs h,
      )
      | inr other ↦ ground (arith, apply_committed-normal_entries es m)
    ]
  ]

  Node-cases : (o : Option (Node R N)) → (o ≡ none) ⊎ ((n : Node R N) × (o ≡ some n))
  Node-cases none = inl refl
  Node-cases (some n) = inr (n, refl)

  pub handle_ready-machine :
      (rd : Ready R N) (n n' : Node R N)
      → N.is_empty_snap rd.snap ≡ true
      → handle_ready rd n ≡ some n'
      → (n'.machine ≡ apply_committed rd.committed_entries n.machine)
        × (n'.sent ≡ n.sent ++ rd.messages)
  unfolding handle_ready
  handle_ready-machine rd n n' empty h = (ground arith, ground arith)

  -- When no snapshot is received, the applier's state after any sequence of Ready values, none of them
  -- a panic, is the fold of Apply over all committed entries in order that are normal and not
  -- empty: it does not depend on how the entries are spread over the Ready values, on what is saved,
  -- or on when the node takes snapshots of its own. The messages have gone out in order.
  pub run_all-machine :
      (rds : List (Ready R N)) (n n' : Node R N)
      → All (λ rd. N.is_empty_snap rd.snap ≡ true) rds
      → run_all rds n ≡ some n'
      → (n'.machine ≡ apply_committed (all_committed rds) n.machine)
        × (n'.sent ≡ n.sent ++ all_messages rds)
  unfolding apply_committed
  run_all-machine [] n n' empty h = (ground arith, ground (arith, append-nil n.sent))
  run_all-machine (rd ∷ rds) n n' empty h = elim (Node-cases (handle_ready rd n)) [
    | inl panic ↦ ground arith
    | inr (k, e) ↦
        let first = handle_ready-machine rd n k empty.0 e in
        let rest = run_all-machine rds k n' empty.1 (ground arith) in
        (
          rest.0
              ∙ ap (apply_committed (all_committed rds)) first.0
              ∙ sym (apply_committed-append rd.committed_entries (all_committed rds) n.machine),
          rest.1
              ∙ ap (λ l. l ++ all_messages rds) first.1
              ∙ append_assoc n.sent rd.messages (all_messages rds),
        )
  ]
