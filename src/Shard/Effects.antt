-- ===== src/Shard/Effects.antt =====
-- The calls of the store that the handlers of cmd/shard-node/main.go make, and those of the entries
-- that raft commits.
use shard_db.Base.{
  ◌≡◌, refl, sym, ap, ◌∙◌, Bool, ◌&&◌, Option, none, some, List, [], ◌∷◌, ◌++◌, All, All-append,
  arith, if◌then◌else◌, ltb, length, inl, inr, Option-cases,
}
use shard_db.Bytes.{Bytes, codes}
use shard_db.Mvcc.{max_uint64}
use shard_db.Raft.{RaftLibrary}
use shard_db.Raft.Node.{apply_committed}
use shard_db.Shard.{Parsers}
use shard_db.Shard.Calls.{
  parsed_calls, parsed_calls-run, parsed_calls-InRange, entry_calls, entry_calls-InRange,
  apply_entry-run, IsLimited, run_if, All-if,
}
use shard_db.Shard.Debug.{Codec, ExportItem, debug_ingest, collect_items}
use shard_db.Shard.Execute.{execute_handler}
use shard_db.Raft.Program.{Etcd}
use shard_db.Shard.Server.{
  SnapshotText, applier, HttpCall, execute_call, prepare_call, commit_call, abort_call,
  oneshot_call, raft_call, export_call, ingest_call,
}
use shard_db.Store.{MemoryStore}
use shard_db.Store.Abstract.Refine.{InRange}
use shard_db.Store.Calls.{Call, ingest, run}
use shard_db.Strings.{has_prefix, to_upper}
use shard_db.Tree.{BTree}

-- The items of an ingest are versions.
abbrev pub IngestsVersions : Codec → HttpCall → Type 0
IngestsVersions c (ingest_call body) = elim (c.decode body) [
  | none ↦ Unit
  | some items ↦ InRange (ingest (c.range (collect_items items [])))
]
IngestsVersions c _ = Unit

module _ {B : BTree} where
  pub run-append : (cs ds : List Call) (s : MemoryStore B) → run (cs ++ ds) s ≡ run ds (run cs s)
  run-append [] ds s = refl
  run-append (c ∷ cs) ds s = run-append cs ds _

abbrev sql_text : Bytes → Bytes → Bytes
sql_text [] body = body
sql_text (c ∷ cs) body = c ∷ cs

-- The calls that a handler makes itself: those of a SELECT, and the ingest of a body that is a list of
-- items.
abbrev pub request_calls : Parsers → Codec → HttpCall → List Call
request_calls p c (execute_call sql body) =
    if has_prefix (to_upper (sql_text sql body)) (codes "SELECT")
    then parsed_calls (p.parse_to_plan (sql_text sql body)) max_uint64
    else []
request_calls p c (ingest_call body) = elim (c.decode body) [
  | none ↦ []
  | some items ↦ ingest (c.range (collect_items items [])) ∷ []
]
request_calls p c _ = []

pub request_calls-InRange :
    (p : Parsers) (c : Codec) (r : HttpCall)
    → IngestsVersions c r
    → All InRange (request_calls p c r)
request_calls-InRange p c (execute_call sql body) h =
    All-if (has_prefix (to_upper (sql_text sql body)) (codes "SELECT")) _ _
      (parsed_calls-InRange (p.parse_to_plan (sql_text sql body)) max_uint64 (omega arith)) tt
request_calls-InRange p c (ingest_call body) h = ingested (c.decode body) h
  where
    ingested :
        (o : Option (List ExportItem))
        → (let limit : Type 0 = elim o [
          | none ↦ Unit
          | some items ↦ InRange (ingest (c.range (collect_items items [])))
        ] in
            limit)
        → All InRange (
            let calls : List Call = elim o [
              | none ↦ []
              | some items ↦ ingest (c.range (collect_items items [])) ∷ []
            ] in
            calls)
    ingested none k = tt
    ingested (some items) k = (k, tt)
request_calls-InRange p c (prepare_call key val txn) h = tt
request_calls-InRange p c (commit_call key txn ts) h = tt
request_calls-InRange p c (abort_call key txn) h = tt
request_calls-InRange p c (oneshot_call body) h = tt
request_calls-InRange p c (raft_call method body) h = tt
request_calls-InRange p c (export_call from to) h = tt

module _ {B : BTree} (p : Parsers) where
  -- What /execute does to the store.
  pub execute_handler-run :
      (sql body : Bytes) (s : MemoryStore B)
      → (execute_handler p sql body s).1
        ≡ run
            (if has_prefix (to_upper (sql_text sql body)) (codes "SELECT")
              then parsed_calls (p.parse_to_plan (sql_text sql body)) max_uint64
              else [])
            s
  unfolding execute_handler
  execute_handler-run [] body s =
      ground (arith, parsed_calls-run (p.parse_to_plan body) max_uint64 s)
  execute_handler-run (b ∷ bs) body s =
      ground (arith, parsed_calls-run (p.parse_to_plan (b ∷ bs)) max_uint64 s)

  -- What /debug/ingest does to it.
  pub debug_ingest-run :
      (c : Codec) (body : Bytes) (s : MemoryStore B)
      → (debug_ingest c body s).0 ≡ run (request_calls p c (ingest_call body)) s
  unfolding debug_ingest
  debug_ingest-run c body s = elim (Option-cases (c.decode body)) [
    | inl refused ↦ ground arith
    | inr (items, decoded) ↦ ground arith
  ]

-- Whether the loop of raft hands the entry to Apply.
abbrev pub is_applied : {R : RaftLibrary} → Etcd R → R.Entry → Bool
is_applied e en = e.is_normal en && ltb 0 (length (e.entry_data en))

module _ {R : RaftLibrary} (e : Etcd R) (p : Parsers) where
  -- The calls for the entries that a Ready commits, in order: an entry that is normal and not empty
  -- makes its calls, and the others make none.
  abbrev pub committed_calls : List R.Entry → List Call
  committed_calls [] = []
  committed_calls (en ∷ es) =
      (if is_applied e en then entry_calls p (e.entry_data en) else []) ++ committed_calls es

  pub committed_calls-InRange : (es : List R.Entry) → IsLimited p → All InRange (committed_calls es)
  committed_calls-InRange [] limited = tt
  committed_calls-InRange (en ∷ es) limited =
      All-append InRange (if is_applied e en then entry_calls p (e.entry_data en) else [])
        (committed_calls es)
        (All-if (is_applied e en) _ _ (entry_calls-InRange p (e.entry_data en) limited) tt)
        (committed_calls-InRange es limited)

  module _ {B : BTree} (text : SnapshotText) where
    pub apply_committed-run :
        (es : List R.Entry) (s : MemoryStore B)
        → apply_committed (applier e B p text) es s ≡ run (committed_calls es) s
    unfolding apply_committed
    apply_committed-run [] s = refl
    apply_committed-run (en ∷ es) s =
        apply_committed-run es _
        ∙ ap (run (committed_calls es)) (
            run_if (is_applied e en) (entry_calls p (e.entry_data en)) [] s _ s
              (apply_entry-run p (e.entry_data en) s) refl)
        ∙ sym (
            run-append (if is_applied e en then entry_calls p (e.entry_data en) else [])
              (committed_calls es) s)
