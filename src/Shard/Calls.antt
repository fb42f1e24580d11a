-- ===== src/Shard/Calls.antt =====
-- The calls of the store that Apply of cmd/shard-node/main.go makes for an entry.
use shard_db.Base.{
  ℕ, ◌^◌, ◌<◌, ◌≡◌, refl, sym, Bool, true, false, some, List, [], ◌∷◌, ◌++◌, All, drop, arith,
  if◌then◌else◌,
}
use shard_db.Base.Result.{Result, ok, err}
use shard_db.Bytes.{Bytes, codes}
use shard_db.Decimal.{format_decimal, scan_uint64, scan_uint64-lt}
use shard_db.Shard.{Parsers, storage_ops, apply_entry, apply_prepare, apply_commit, apply_abort}
use shard_db.Sql.{
  PlanNode, SqlError, engine_error, insert_node, point_get_node, project_node, scan_node,
  filter_node,
}
use shard_db.Sql.Executor.{Rows, execute, execute_insert, row_key}
use shard_db.Store
use shard_db.Store.{MemoryStore}
use shard_db.Store.Abstract.Refine.{InRange}
use shard_db.Store.Calls.{Call, prepare, commit, abort, one_phase_commit, run}
use shard_db.Strings.{has_prefix, trim_prefix, split, join}
use shard_db.Tree.{BTree}

-- The calls for the parts of an entry.
abbrev prepare_calls : List Bytes → List Call
prepare_calls (op ∷ (key ∷ (value ∷ (txn ∷ [])))) = prepare key value txn ∷ []
prepare_calls _ = []

abbrev commit_calls : List Bytes → List Call
commit_calls (op ∷ (key ∷ (txn ∷ (ts ∷ [])))) = commit key txn (scan_uint64 ts) ∷ []
commit_calls _ = []

abbrev abort_calls : List Bytes → List Call
abort_calls (op ∷ (key ∷ (txn ∷ []))) = abort key txn ∷ []
abort_calls _ = []

-- The calls for a plan; only an INSERT with a value makes some.
abbrev plan_calls : PlanNode → ℕ → List Call
plan_calls (insert_node table columns (pk ∷ vs)) ts =
    let txn_id = codes "auto-" ++ format_decimal ts in
    prepare (row_key table pk) (join (pk ∷ vs) (codes ",")) txn_id
    ∷ commit (row_key table pk) txn_id ts
    ∷ []
plan_calls _ ts = []

abbrev pub parsed_calls : Result SqlError PlanNode → ℕ → List Call
parsed_calls (ok plan) ts = plan_calls plan ts
parsed_calls (err e) ts = []

abbrev pub entry_calls : Parsers → Bytes → List Call
entry_calls p data_ =
    if has_prefix data_ (codes "PREPARE ")
    then prepare_calls (split data_ b' ')
    else if has_prefix data_ (codes "COMMIT ")
    then commit_calls (split data_ b' ')
    else if has_prefix data_ (codes "ABORT ")
    then abort_calls (split data_ b' ')
    else if has_prefix data_ (codes "ONESHOT ")
    then (let req = p.unmarshal (trim_prefix data_ (codes "ONESHOT ")) in
        one_phase_commit (storage_ops req.ops) req.txn_id req.ts ∷ [])
    else if has_prefix data_ (codes "SQL:")
    then parsed_calls (p.parse_to_plan (drop 4 data_)) 100
    else []

module _ {B : BTree} where
  prepare_calls-run :
      (fields : List Bytes) (s : MemoryStore B)
      → run (prepare_calls fields) s ≡ apply_prepare fields s
  unfolding apply_prepare
  prepare_calls-run [] s = refl
  prepare_calls-run (a ∷ []) s = refl
  prepare_calls-run (a ∷ (b ∷ [])) s = refl
  prepare_calls-run (a ∷ (b ∷ (c ∷ []))) s = refl
  prepare_calls-run (a ∷ (b ∷ (c ∷ (d ∷ [])))) s = refl
  prepare_calls-run (a ∷ (b ∷ (c ∷ (d ∷ (e ∷ fs))))) s = refl

  commit_calls-run :
      (fields : List Bytes) (s : MemoryStore B)
      → run (commit_calls fields) s ≡ apply_commit fields s
  unfolding apply_commit
  commit_calls-run [] s = refl
  commit_calls-run (a ∷ []) s = refl
  commit_calls-run (a ∷ (b ∷ [])) s = refl
  commit_calls-run (a ∷ (b ∷ (c ∷ []))) s = refl
  commit_calls-run (a ∷ (b ∷ (c ∷ (d ∷ [])))) s = refl
  commit_calls-run (a ∷ (b ∷ (c ∷ (d ∷ (e ∷ fs))))) s = refl

  abort_calls-run :
      (fields : List Bytes) (s : MemoryStore B) → run (abort_calls fields) s ≡ apply_abort fields s
  unfolding apply_abort
  abort_calls-run [] s = refl
  abort_calls-run (a ∷ []) s = refl
  abort_calls-run (a ∷ (b ∷ [])) s = refl
  abort_calls-run (a ∷ (b ∷ (c ∷ []))) s = refl
  abort_calls-run (a ∷ (b ∷ (c ∷ (d ∷ fs)))) s = refl

  -- A commit behind a prepare that is refused is refused too, and changes nothing.
  commit-prepare_refused :
      (key value txn_id : Bytes) (ts : ℕ) (s : MemoryStore B) (e : Store.StoreError)
      → (Store.prepare key value txn_id s).1 ≡ err e
      → (Store.commit key txn_id ts (Store.prepare key value txn_id s).0).0
        ≡ (Store.prepare key value txn_id s).0
  unfolding Store.prepare Store.commit
  commit-prepare_refused key value txn_id ts s e h = ground arith

  -- What executeInsert leaves behind once it has prepared.
  insert_state :
      (prepared : MemoryStore B) (r : Result Store.StoreError (Unit {0})) (key txn_id : Bytes)
      (ts : ℕ)
      → ((e : Store.StoreError) → r ≡ err e → (Store.commit key txn_id ts prepared).0 ≡ prepared)
      → (Store.commit key txn_id ts prepared).0
        ≡ (let after : MemoryStore B × Rows = elim r [
          | err e ↦ (prepared, err (engine_error e))
          | ok _ ↦
              let (committed, r') = Store.commit key txn_id ts prepared in
              elim r' [
                | err e ↦ (committed, err (engine_error e))
                | ok _ ↦ (committed, ok (some ((codes "Inserted 1 row" ∷ []) ∷ [])))
              ]
        ] in
            after).0
  insert_state prepared (err e) key txn_id ts h = h e refl
  insert_state prepared (ok _) key txn_id ts h = ground arith

  plan_calls-run :
      (plan : PlanNode) (ts : ℕ) (s : MemoryStore B)
      → run (plan_calls plan ts) s ≡ (execute plan s ts).0
  unfolding execute execute_insert
  plan_calls-run (insert_node table columns []) ts s = refl
  plan_calls-run (insert_node table columns (pk ∷ vs)) ts s =
      let txn_id = codes "auto-" ++ format_decimal ts in
      let prepared = Store.prepare (row_key table pk) (join (pk ∷ vs) (codes ",")) txn_id s in
      insert_state prepared.0 prepared.1 (row_key table pk) txn_id ts
        (commit-prepare_refused (row_key table pk) (join (pk ∷ vs) (codes ",")) txn_id ts s)
  plan_calls-run (point_get_node table key) ts s = refl
  plan_calls-run (project_node input columns) ts s = refl
  plan_calls-run (scan_node table) ts s = refl
  plan_calls-run (filter_node input expr) ts s = refl

  pub parsed_calls-run :
      (r : Result SqlError PlanNode) (ts : ℕ) (s : MemoryStore B)
      → (let after : MemoryStore B = elim r [ err e ↦ s | ok plan ↦ (execute plan s ts).0 ] in
          after)
        ≡ run (parsed_calls r ts) s
  parsed_calls-run (err e) ts s = refl
  parsed_calls-run (ok plan) ts s = sym (plan_calls-run plan ts s)

  pub run_if :
      (b : Bool) (cs ds : List Call) (s t u : MemoryStore B)
      → t ≡ run cs s
      → u ≡ run ds s
      → (if b then t else u) ≡ run (if b then cs else ds) s
  run_if true cs ds s t u p q = p
  run_if false cs ds s t u p q = q

  -- Apply makes the calls of its entry.
  pub apply_entry-run :
      (p : Parsers) (data_ : Bytes) (s : MemoryStore B)
      → apply_entry p data_ s ≡ run (entry_calls p data_) s
  unfolding apply_entry
  apply_entry-run p data_ s =
      let parts = split data_ b' ' in
      run_if (has_prefix data_ (codes "PREPARE ")) _ _ s _ _ (sym (prepare_calls-run parts s)) (
        run_if (has_prefix data_ (codes "COMMIT ")) _ _ s _ _ (sym (commit_calls-run parts s)) (
          run_if (has_prefix data_ (codes "ABORT ")) _ _ s _ _ (sym (abort_calls-run parts s)) (
            run_if (has_prefix data_ (codes "ONESHOT ")) _ _ s _ _ refl (
              run_if (has_prefix data_ (codes "SQL:")) _ _ s _ _
                (parsed_calls-run (p.parse_to_plan (drop 4 data_)) 100 s) refl))))

-- A timestamp that json.Unmarshal makes is a uint64.
abbrev pub IsLimited : Parsers → Type 0
IsLimited p = (body : Bytes) → (p.unmarshal body).ts < 2 ^ 64

prepare_calls-InRange : (fields : List Bytes) → All InRange (prepare_calls fields)
prepare_calls-InRange [] = tt
prepare_calls-InRange (a ∷ []) = tt
prepare_calls-InRange (a ∷ (b ∷ [])) = tt
prepare_calls-InRange (a ∷ (b ∷ (c ∷ []))) = tt
prepare_calls-InRange (a ∷ (b ∷ (c ∷ (d ∷ [])))) = (tt, tt)
prepare_calls-InRange (a ∷ (b ∷ (c ∷ (d ∷ (e ∷ fs))))) = tt

commit_calls-InRange : (fields : List Bytes) → All InRange (commit_calls fields)
commit_calls-InRange [] = tt
commit_calls-InRange (a ∷ []) = tt
commit_calls-InRange (a ∷ (b ∷ [])) = tt
commit_calls-InRange (a ∷ (b ∷ (c ∷ []))) = tt
commit_calls-InRange (a ∷ (b ∷ (c ∷ (d ∷ [])))) = (scan_uint64-lt d, tt)
commit_calls-InRange (a ∷ (b ∷ (c ∷ (d ∷ (e ∷ fs))))) = tt

abort_calls-InRange : (fields : List Bytes) → All InRange (abort_calls fields)
abort_calls-InRange [] = tt
abort_calls-InRange (a ∷ []) = tt
abort_calls-InRange (a ∷ (b ∷ [])) = tt
abort_calls-InRange (a ∷ (b ∷ (c ∷ []))) = (tt, tt)
abort_calls-InRange (a ∷ (b ∷ (c ∷ (d ∷ fs)))) = tt

pub parsed_calls-InRange :
    (r : Result SqlError PlanNode) (ts : ℕ) → ts < 2 ^ 64 → All InRange (parsed_calls r ts)
parsed_calls-InRange (err e) ts h = tt
parsed_calls-InRange (ok (insert_node table columns [])) ts h = tt
parsed_calls-InRange (ok (insert_node table columns (pk ∷ vs))) ts h = (tt, (h, tt))
parsed_calls-InRange (ok (point_get_node table key)) ts h = tt
parsed_calls-InRange (ok (project_node input columns)) ts h = tt
parsed_calls-InRange (ok (scan_node table)) ts h = tt
parsed_calls-InRange (ok (filter_node input expr)) ts h = tt

pub All-if :
    (b : Bool) (cs ds : List Call)
    → All InRange cs
    → All InRange ds
    → All InRange (if b then cs else ds)
All-if true cs ds p q = p
All-if false cs ds p q = q

-- Every entry makes calls with uint64 timestamps only.
pub entry_calls-InRange :
    (p : Parsers) (data_ : Bytes) → IsLimited p → All InRange (entry_calls p data_)
entry_calls-InRange p data_ limited =
    let parts = split data_ b' ' in
    All-if (has_prefix data_ (codes "PREPARE ")) _ _ (prepare_calls-InRange parts) (
      All-if (has_prefix data_ (codes "COMMIT ")) _ _ (commit_calls-InRange parts) (
        All-if (has_prefix data_ (codes "ABORT ")) _ _ (abort_calls-InRange parts) (
          All-if (has_prefix data_ (codes "ONESHOT ")) _ _
            (limited (trim_prefix data_ (codes "ONESHOT ")), tt)
            (All-if (has_prefix data_ (codes "SQL:")) _ _
              (parsed_calls-InRange (p.parse_to_plan (drop 4 data_)) 100 (omega arith)) tt))))
