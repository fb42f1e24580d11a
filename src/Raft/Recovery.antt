-- ===== src/Raft/Recovery.antt =====
-- The replay of a log that Save and ApplySnapshot have written.
use shard_db.Base.{
  ℕ, ◌+◌, ◌≡◌, refl, sym, ap, ◌∙◌, Option, none, some, List, [], ◌∷◌, ◌++◌, arith, if◌then◌else◌,
  Bool-cases, inl, inr, ◌⊎◌,
}
use shard_db.Base.Result.{Result, ok}
use shard_db.Bytes.{Bytes}
use shard_db.Wal.{Wal, WalError, Handler, append}
use shard_db.Wal.Frame.{append_all}
use shard_db.Wal.Replay.{handle_all}
use shard_db.Raft.{
  Record, RaftLibrary, DiskStorage, record_entry, record_hard_state, record_snapshot, bind,
  try_snapshot, replay, write_record, write_entries, save,
}

-- What the code relies on: what is marshalled can be unmarshalled, and Append of entries with
-- consecutive indexes is Append of one after the other.
pub record Laws (R : RaftLibrary) : Type 0 where
  pub index : R.Entry → ℕ
  pub unmarshal_record_lem : (r : Record) → R.unmarshal_record (R.marshal_record r) ≡ some r
  pub unmarshal_entry_lem : (e : R.Entry) → R.unmarshal_entry (R.marshal_entry e) ≡ some e
  pub unmarshal_hard_state_lem :
      (h : R.HardState) → R.unmarshal_hard_state (R.marshal_hard_state h) ≡ some h
  pub unmarshal_snapshot_lem :
      (s : R.Snapshot) → R.unmarshal_snapshot (R.marshal_snapshot s) ≡ some s
  pub append_entries-nil : (m : R.Memory) → R.append_entries [] m ≡ some m
  pub append_entries-cons :
      (e f : R.Entry) (es : List R.Entry) (m : R.Memory)
      → index f ≡ index e + 1
      → R.append_entries (e ∷ f ∷ es) m
        ≡ bind R (R.append_entries (e ∷ []) m) (R.append_entries (f ∷ es))

pub append_all-append :
    (a b : List Bytes) (w : Wal) → append_all (a ++ b) w ≡ append_all b (append_all a w)
append_all-append [] b w = refl
append_all-append (d ∷ a) b w = append_all-append a b (append d w)

pub handle_all-append :
    {S : Type 0} (h : Handler S) (a b : List Bytes) (end : S → S × Result WalError (Unit {0}))
    (s : S)
    → handle_all h (a ++ b) end s ≡ handle_all h a (λ s'. handle_all h b end s') s
handle_all-append h [] b end s = refl
handle_all-append h (d ∷ a) b end s = ground (arith, handle_all-append h a b end (h d s).0)

-- What comes after entries that are handled without an error.
pub handle_all-end :
    {S : Type 0} (h : Handler S) (a : List Bytes) (end : S → S × Result WalError (Unit {0}))
    (s s' : S)
    → handle_all h a (λ x. (x, ok tt)) s ≡ (s', ok tt)
    → handle_all h a end s ≡ end s'
handle_all-end h [] end s s' e = ap (λ r. end r.0) e
handle_all-end h (d ∷ a) end s s' e = ground (arith, handle_all-end h a end (h d s).0 s')

module _ (R : RaftLibrary) (laws : Laws R) where
  abbrev pub IsRun : List R.Entry → Type 0
  IsRun [] = Unit
  IsRun (e ∷ []) = Unit
  IsRun (e ∷ (f ∷ es)) = (laws.index f ≡ laws.index e + 1) × IsRun (f ∷ es)

  abbrev pub bytes_of : ℕ → Bytes → Bytes
  bytes_of typ data_ = R.marshal_record (record { typ = typ; data_ = data_ })

  abbrev entry_records : List R.Entry → List Bytes
  entry_records [] = []
  entry_records (e ∷ es) = bytes_of record_entry (R.marshal_entry e) ∷ entry_records es

  replay-entry :
      (e : R.Entry) (mem : Option R.Memory)
      → replay R (bytes_of record_entry (R.marshal_entry e)) mem
        ≡ (bind R mem (R.append_entries (e ∷ [])), ok tt)
  unfolding replay
  replay-entry e mem = ground (
    arith,
    laws.unmarshal_record_lem (record { typ = record_entry; data_ = R.marshal_entry e }),
    laws.unmarshal_entry_lem e,
  )

  replay-hard_state :
      (hs : R.HardState) (mem : Option R.Memory)
      → replay R (bytes_of record_hard_state (R.marshal_hard_state hs)) mem
        ≡ (bind R mem (λ m. some (R.set_hard_state hs m)), ok tt)
  unfolding replay
  replay-hard_state hs mem = ground (
    arith,
    laws.unmarshal_record_lem (record { typ = record_hard_state; data_ = R.marshal_hard_state hs }),
    laws.unmarshal_hard_state_lem hs,
  )

  pub replay-snapshot :
      (snap : R.Snapshot) (mem : Option R.Memory)
      → replay R (bytes_of record_snapshot (R.marshal_snapshot snap)) mem
        ≡ (bind R mem (try_snapshot R snap), ok tt)
  unfolding replay
  replay-snapshot snap mem = ground (
    arith,
    laws.unmarshal_record_lem (record { typ = record_snapshot; data_ = R.marshal_snapshot snap }),
    laws.unmarshal_snapshot_lem snap,
  )

  abbrev pub End : Type 0
  End = Option R.Memory → Option R.Memory × Result WalError (Unit {0})

  pub handle-step :
      (d : Bytes) (ds : List Bytes) (end : End) (mem next : Option R.Memory)
      → replay R d mem ≡ (next, ok tt)
      → handle_all (replay R) (d ∷ ds) end mem ≡ handle_all (replay R) ds end next
  handle-step d ds end mem next e = ground arith

  append-step :
      (e f : R.Entry) (es : List R.Entry) (mem : Option R.Memory)
      → laws.index f ≡ laws.index e + 1
      → bind R (bind R mem (R.append_entries (e ∷ []))) (R.append_entries (f ∷ es))
        ≡ bind R mem (R.append_entries (e ∷ f ∷ es))
  append-step e f es none next = refl
  append-step e f es (some m) next = sym (laws.append_entries-cons e f es m next)

  append-none : (mem : Option R.Memory) → bind R mem (R.append_entries []) ≡ mem
  append-none none = refl
  append-none (some m) = laws.append_entries-nil m

  -- The entries, appended one by one as they are read, come to Append of all of them.
  handle-entries :
      (es : List R.Entry) (end : End) (mem : Option R.Memory)
      → IsRun es
      → handle_all (replay R) (entry_records es) end mem ≡ end (bind R mem (R.append_entries es))
  handle-entries [] end mem run = ap end (sym (append-none mem))
  handle-entries (e ∷ []) end mem run =
      handle-step (bytes_of record_entry (R.marshal_entry e)) [] end mem _ (replay-entry e mem)
  handle-entries (e ∷ (f ∷ es)) end mem run =
      handle-step (bytes_of record_entry (R.marshal_entry e)) (entry_records (f ∷ es)) end mem _
        (replay-entry e mem)
      ∙ handle-entries (f ∷ es) end (bind R mem (R.append_entries (e ∷ []))) run.1
      ∙ ap end (append-step e f es mem run.0)

  -- The records that Save writes, and the memory after them.
  abbrev state_records : R.HardState → List Bytes
  state_records hs =
      if R.is_empty_hard_state hs
      then []
      else bytes_of record_hard_state (R.marshal_hard_state hs) ∷ []

  abbrev pub save_records : List R.Entry → R.HardState → List Bytes
  save_records es hs = entry_records es ++ state_records hs

  abbrev pub finish : R.HardState → R.Memory → R.Memory
  finish hs m = if R.is_empty_hard_state hs then m else R.set_hard_state hs m

  handle-state :
      (hs : R.HardState) (end : End) (m : R.Memory)
      → handle_all (replay R) (state_records hs) end (some m) ≡ end (some (finish hs m))
  handle-state hs end m = elim (Bool-cases (R.is_empty_hard_state hs)) [
    | inl empty ↦ ground arith
    | inr present ↦ ground (arith, replay-hard_state hs (some m))
  ]

  pub handle-save :
      (es : List R.Entry) (hs : R.HardState) (end : End) (m m' : R.Memory)
      → IsRun es
      → R.append_entries es m ≡ some m'
      → handle_all (replay R) (save_records es hs) end (some m) ≡ end (some (finish hs m'))
  handle-save es hs end m m' run e =
      handle_all-append (replay R) (entry_records es) (state_records hs) end (some m)
      ∙ handle-entries es (λ s. handle_all (replay R) (state_records hs) end s) (some m) run
      ∙ ap (λ o. handle_all (replay R) (state_records hs) end o) e
      ∙ handle-state hs end m'

  write_entries-append_all :
      (es : List R.Entry) (w : Wal) → write_entries R es w ≡ append_all (entry_records es) w
  unfolding write_entries write_record
  write_entries-append_all [] w = refl
  write_entries-append_all (e ∷ es) w =
      write_entries-append_all es (append (bytes_of record_entry (R.marshal_entry e)) w)

  Memory-cases : (o : Option R.Memory) → (o ≡ none) ⊎ ((m : R.Memory) × (o ≡ some m))
  Memory-cases none = inl refl
  Memory-cases (some m) = inr (m, refl)

  persisted-append_all :
      (es : List R.Entry) (hs : R.HardState) (v : Wal)
      → (if R.is_empty_hard_state hs
          then write_entries R es v
          else write_record R record_hard_state (R.marshal_hard_state hs) (write_entries R es v))
        ≡ append_all (save_records es hs) v
  unfolding write_record
  persisted-append_all es hs v =
      let entries = write_entries-append_all es v in
      let both = append_all-append (entry_records es) (state_records hs) v in
      elim (Bool-cases (R.is_empty_hard_state hs)) [
        | inl empty ↦ ground (arith, entries, both)
        | inr present ↦ ground (arith, entries, both)
      ]

  panics :
      (es : List R.Entry) (hs : R.HardState) (ds ds' : DiskStorage R)
      → R.append_entries es ds.memory ≡ none
      → save R es hs ds ≡ some ds'
      → ⊥
  unfolding save
  panics es hs ds ds' panic h = ground arith

  -- A Save that does not panic.
  pub save_lem :
      (es : List R.Entry) (hs : R.HardState) (ds ds' : DiskStorage R)
      → save R es hs ds ≡ some ds'
      → (m : R.Memory) × (R.append_entries es ds.memory ≡ some m)
        × (ds'.memory ≡ finish hs m)
        × (ds'.wal ≡ append_all (save_records es hs) ds.wal)
  unfolding save
  save_lem es hs ds ds' h = elim (Memory-cases (R.append_entries es ds.memory)) [
    | inl panic ↦ absurd (panics es hs ds ds' panic h)
    | inr (m, e) ↦ (m, e, ground arith, ground (arith, persisted-append_all es hs ds.wal))
  ]
