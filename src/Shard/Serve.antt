-- ===== src/Shard/Serve.antt =====
-- The store of a shard node of cmd/shard-node/main.go, through all that happens to the node.
use mathlib.Core.Path.{subst}
use shard_db.Base.{
  ℕ, ◌≡◌, refl, sym, ap, ◌∙◌, Bool, true, false, some, List, [], ◌∷◌, ◌++◌, All, All-append, arith,
  inl, inr, Option-cases,
}
use shard_db.Base.Result.{ok}
use shard_db.Bytes.{Bytes}
use shard_db.Raft.{RaftLibrary}
use shard_db.Raft.Node.{apply_committed}
use shard_db.Raft.Program.{
  Etcd, Happening, requested, selected, HasNoSnapshot, HasEffect, effects, serve-effects, started,
  running,
}
use shard_db.Raft.Run.{RunLibrary, Running, done, ticked, ready, propose, step}
use shard_db.Raft.Transport.{HttpTransport, handler}
use shard_db.Shard.{Parsers}
use shard_db.Shard.Calls.{IsLimited}
use shard_db.Shard.Debug.{Codec}
use shard_db.Shard.Effects.{
  run-append, request_calls, request_calls-InRange, IngestsVersions, execute_handler-run,
  debug_ingest-run, committed_calls, committed_calls-InRange, apply_committed-run,
}
use shard_db.Shard.Server.{
  SnapshotText, applier, HttpCall, execute_call, prepare_call, commit_call, abort_call,
  oneshot_call, raft_call, export_call, ingest_call, start_shard, handle_call, serve_shard,
}
use shard_db.Store.{MemoryStore, new_memory_store}
use shard_db.Store.Abstract.{Steps}
use shard_db.Store.Abstract.Refine.{InRange, run-Steps}
use shard_db.Store.Abstract.View.{view}
use shard_db.Store.Calls.{Call, run}
use shard_db.Store.Items.{IsMvcc}
use shard_db.Tree.{BTree}
use shard_db.Wal.{Wal}

module _ {R : RaftLibrary} {B : BTree} (e : Etcd R) (p : Parsers) (text : SnapshotText)
    (L : RunLibrary R (applier e B p text)) (c : Codec) where
  -- The calls of all that happens, until Run returns and after it.
  abbrev pub serve_calls : Bool → List (Happening L HttpCall) → List Call
  serve_calls stopped [] = []
  serve_calls stopped (requested r ∷ hs) = request_calls p c r ++ serve_calls stopped hs
  serve_calls stopped (selected done ∷ hs) = serve_calls true hs
  serve_calls stopped (selected ticked ∷ hs) = serve_calls stopped hs
  serve_calls true (selected (ready rd) ∷ hs) = serve_calls true hs
  serve_calls false (selected (ready rd) ∷ hs) =
      committed_calls e p rd.committed_entries ++ serve_calls false hs

  -- What is ingested are versions.
  abbrev pub HasVersions : Happening L HttpCall → Type 0
  HasVersions (requested r) = IngestsVersions c r
  HasVersions (selected k) = Unit

  -- A handler makes its own calls of the store.
  abbrev effect : HttpCall → MemoryStore B → MemoryStore B
  effect r s = run (request_calls p c r) s

  handle_call-HasEffect : HasEffect L (λ r n. (handle_call e p text L c r n).0) effect
  unfolding handle_call propose step
  handle_call-HasEffect (execute_call sql body) n =
      (execute_handler-run p sql body n.node.machine, refl)
  handle_call-HasEffect (ingest_call body) n = (debug_ingest-run p c body n.node.machine, refl)
  handle_call-HasEffect (prepare_call key val txn) n = (refl, refl)
  handle_call-HasEffect (commit_call key txn ts) n = (refl, refl)
  handle_call-HasEffect (abort_call key txn) n = (refl, refl)
  handle_call-HasEffect (oneshot_call body) n = (refl, refl)
  handle_call-HasEffect (raft_call method body) n =
      elim (Option-cases (handler e.codec method body).1) [
        | inl no_message ↦ (ground arith, ground arith)
        | inr (m, decoded) ↦ (ground arith, ground arith)
      ]
  handle_call-HasEffect (export_call from to) n = (refl, refl)

  effects-run :
      (stopped : Bool) (hs : List (Happening L HttpCall)) (s : MemoryStore B)
      → effects L (λ r n. (handle_call e p text L c r n).0) effect stopped hs s
        ≡ run (serve_calls stopped hs) s
  effects-run b [] s = refl
  effects-run b (requested r ∷ hs) s =
      effects-run b hs (effect r s) ∙ sym (run-append (request_calls p c r) (serve_calls b hs) s)
  effects-run b (selected done ∷ hs) s = effects-run true hs s
  effects-run b (selected ticked ∷ hs) s = effects-run b hs s
  effects-run true (selected (ready rd) ∷ hs) s = effects-run true hs s
  effects-run false (selected (ready rd) ∷ hs) s =
      effects-run false hs (apply_committed (applier e B p text) rd.committed_entries s)
      ∙ ap (run (serve_calls false hs)) (apply_committed-run e p text rd.committed_entries s)
      ∙ sym (run-append (committed_calls e p rd.committed_entries) (serve_calls false hs) s)

  start_shard-empty :
      (id : ℕ) (cluster : Bytes) (wal : Wal) (t : HttpTransport) (n : Running L)
      → start_shard e p text L id cluster wal ≡ ok (t, n)
      → (n.node.machine ≡ new_memory_store B) × (n.stopped ≡ false)
  unfolding start_shard started running
  start_shard-empty id cluster wal t n h = (ground arith, ground arith)

  -- After all that happens to a node since its start, its store is what the calls make of the empty
  -- one.
  pub serve_shard-run :
      (id : ℕ) (cluster : Bytes) (wal : Wal) (t : HttpTransport) (n n' : Running L)
      (hs : List (Happening L HttpCall))
      → start_shard e p text L id cluster wal ≡ ok (t, n)
      → All (HasNoSnapshot L) hs
      → serve_shard e p text L c hs n ≡ some n'
      → n'.node.machine ≡ run (serve_calls false hs) (new_memory_store B)
  serve_shard-run id cluster wal t n n' hs first bare served =
      let (empty, on) = start_shard-empty id cluster wal t n first in
      serve-effects L (λ r k. (handle_call e p text L c r k).0) effect false hs n n'
        handle_call-HasEffect on bare served
      ∙ effects-run false hs n.node.machine
      ∙ ap (run (serve_calls false hs)) empty

  serve_calls-InRange :
      (stopped : Bool) (hs : List (Happening L HttpCall))
      → IsLimited p
      → All HasVersions hs
      → All InRange (serve_calls stopped hs)
  serve_calls-InRange b [] limited good = tt
  serve_calls-InRange b (requested r ∷ hs) limited good =
      All-append InRange (request_calls p c r) (serve_calls b hs)
        (request_calls-InRange p c r good.0) (serve_calls-InRange b hs limited good.1)
  serve_calls-InRange b (selected done ∷ hs) limited good =
      serve_calls-InRange true hs limited good.1
  serve_calls-InRange b (selected ticked ∷ hs) limited good =
      serve_calls-InRange b hs limited good.1
  serve_calls-InRange true (selected (ready rd) ∷ hs) limited good =
      serve_calls-InRange true hs limited good.1
  serve_calls-InRange false (selected (ready rd) ∷ hs) limited good =
      All-append InRange (committed_calls e p rd.committed_entries) (serve_calls false hs)
        (committed_calls-InRange e p rd.committed_entries limited)
        (serve_calls-InRange false hs limited good.1)

  new_memory_store-IsMvcc : IsMvcc (B.items (new_memory_store B).tree)
  unfolding new_memory_store
  new_memory_store-IsMvcc = subst IsMvcc (sym B.items-new) (record { sorted = tt; versions = tt })

  -- A shard node from its start, through any requests, ticks, Ready values without a snapshot, and a
  -- stop, none of them a panic, where what is ingested are versions and json.Unmarshal makes uint64
  -- timestamps: its store is what the calls of the committed entries and of the handlers make of
  -- the empty store, each in its turn, whatever the entries hold. It is well-formed, and it got
  -- there by steps of the contract of a store.
  pub serve_shard-Steps :
      (id : ℕ) (cluster : Bytes) (wal : Wal) (t : HttpTransport) (n n' : Running L)
      (hs : List (Happening L HttpCall))
      → start_shard e p text L id cluster wal ≡ ok (t, n)
      → IsLimited p
      → All (HasNoSnapshot L) hs
      → All HasVersions hs
      → serve_shard e p text L c hs n ≡ some n'
      → let calls = serve_calls false hs in
        (n'.node.machine ≡ run calls (new_memory_store B))
        × IsMvcc (B.items n'.node.machine.tree)
        × Steps calls (view (new_memory_store B)) (view n'.node.machine)
  serve_shard-Steps id cluster wal t n n' hs first limited bare good served =
      let calls = serve_calls false hs in
      let same = serve_shard-run id cluster wal t n n' hs first bare served in
      let (kept, steps) =
        run-Steps calls (new_memory_store B) (serve_calls-InRange false hs limited good)
          new_memory_store-IsMvcc in
      (
        same,
        subst (λ s. IsMvcc (B.items s.tree)) (sym same) kept,
        subst (λ s. Steps calls (view (new_memory_store B)) (view s)) (sym same) steps,
      )
