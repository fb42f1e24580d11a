-- ===== src/Shard/Replicas.antt =====
-- Two shard nodes of cmd/shard-node/main.go in one group of raft.
use shard_db.Base.{
  ℕ, ◌≡◌, refl, sym, ap, ◌∙◌, Bool, true, false, some, List, [], ◌∷◌, ◌++◌, append_assoc, All,
  if◌then◌else◌,
}
use shard_db.Base.Result.{ok}
use shard_db.Bytes.{Bytes}
use shard_db.Raft.{RaftLibrary}
use shard_db.Raft.Program.{Etcd, Happening, requested, selected, committed, HasNoSnapshot}
use shard_db.Raft.Run.{RunLibrary, Running, done, ticked, ready}
use shard_db.Raft.Transport.{HttpTransport}
use shard_db.Shard.{Parsers}
use shard_db.Shard.Calls.{entry_calls}
use shard_db.Shard.Debug.{Codec}
use shard_db.Shard.Effects.{is_applied, run-append, request_calls, committed_calls}
use shard_db.Shard.Serve.{serve_calls, serve_shard-run}
use shard_db.Shard.Server.{SnapshotText, applier, HttpCall, start_shard, serve_shard}
use shard_db.Store.{new_memory_store}
use shard_db.Store.Calls.{Call, run}
use shard_db.Tree.{BTree}
use shard_db.Wal.{Wal}

module _ {R : RaftLibrary} {B : BTree} (e : Etcd R) (p : Parsers) (text : SnapshotText)
    (L : RunLibrary R (applier e B p text)) (c : Codec) where
  -- No handler makes calls of the store itself.
  abbrev pub IsQuiet : Happening L HttpCall → Type 0
  IsQuiet (requested r) = request_calls p c r ≡ []
  IsQuiet (selected k) = Unit

  committed_calls-append :
      (es fs : List R.Entry)
      → committed_calls e p (es ++ fs) ≡ committed_calls e p es ++ committed_calls e p fs
  committed_calls-append [] fs = refl
  committed_calls-append (en ∷ es) fs =
      let mine : List Call = if is_applied e en then entry_calls p (e.entry_data en) else [] in
      ap (λ cs. mine ++ cs) (committed_calls-append es fs)
      ∙ sym (append_assoc mine (committed_calls e p es) (committed_calls e p fs))

  serve_calls-committed :
      (stopped : Bool) (hs : List (Happening L HttpCall))
      → All IsQuiet hs
      → serve_calls e p text L c stopped hs ≡ committed_calls e p (committed L stopped hs)
  serve_calls-committed b [] q = refl
  serve_calls-committed b (requested r ∷ hs) q =
      ap (λ cs. cs ++ serve_calls e p text L c b hs) q.0 ∙ serve_calls-committed b hs q.1
  serve_calls-committed b (selected done ∷ hs) q = serve_calls-committed true hs q.1
  serve_calls-committed b (selected ticked ∷ hs) q = serve_calls-committed b hs q.1
  serve_calls-committed true (selected (ready rd) ∷ hs) q = serve_calls-committed true hs q.1
  serve_calls-committed false (selected (ready rd) ∷ hs) q =
      ap (λ cs. committed_calls e p rd.committed_entries ++ cs) (serve_calls-committed false hs q.1)
      ∙ sym (committed_calls-append rd.committed_entries (committed L false hs))

  serve_shard-committed :
      (id : ℕ) (cluster : Bytes) (wal : Wal) (t : HttpTransport) (n n' : Running L)
      (hs : List (Happening L HttpCall))
      → start_shard e p text L id cluster wal ≡ ok (t, n)
      → All (HasNoSnapshot L) hs
      → All IsQuiet hs
      → serve_shard e p text L c hs n ≡ some n'
      → n'.node.machine ≡ run (committed_calls e p (committed L false hs)) (new_memory_store B)
  serve_shard-committed id cluster wal t n n' hs first bare q served =
      serve_shard-run e p text L c id cluster wal t n n' hs first bare served
      ∙ ap (λ cs. run cs (new_memory_store B)) (serve_calls-committed false hs q)

  -- Two shard nodes, each from its start, with an id, a flag, a file, requests and Ready values of its
  -- own, where there is no panic, no snapshot is received, and no handler calls a store (there is
  -- no ingest, and no SELECT that is parsed as an INSERT): if what raft commits at the second is
  -- what it commits at the first and some more entries, however they are spread over the Ready
  -- values, then the store of the second is the store of the first after the calls of these
  -- entries. So the stores are equal where there are no more.
  pub serve_shard-serve_shard :
      (id id' : ℕ) (cluster cluster' : Bytes) (wal wal' : Wal) (t t' : HttpTransport)
      (n n' m m' : Running L) (hs hs' : List (Happening L HttpCall)) (more : List R.Entry)
      → start_shard e p text L id cluster wal ≡ ok (t, n)
      → start_shard e p text L id' cluster' wal' ≡ ok (t', m)
      → All (HasNoSnapshot L) hs × All IsQuiet hs
      → All (HasNoSnapshot L) hs' × All IsQuiet hs'
      → serve_shard e p text L c hs n ≡ some n'
      → serve_shard e p text L c hs' m ≡ some m'
      → committed L false hs' ≡ committed L false hs ++ more
      → m'.node.machine ≡ run (committed_calls e p more) n'.node.machine
  serve_shard-serve_shard id id' cluster cluster' wal wal' t t' n n' m m' hs hs' more first first'
        good good' served served' further =
      let calls = committed_calls e p (committed L false hs) in
      serve_shard-committed id' cluster' wal' t' m m' hs' first' good'.0 good'.1 served'
      ∙ ap (λ es. run (committed_calls e p es) (new_memory_store B)) further
      ∙ ap (λ cs. run cs (new_memory_store B)) (committed_calls-append (committed L false hs) more)
      ∙ run-append calls (committed_calls e p more) (new_memory_store B)
      ∙ ap (run (committed_calls e p more))
          (sym (serve_shard-committed id cluster wal t n n' hs first good.0 good.1 served))
