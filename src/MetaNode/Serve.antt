-- ===== src/MetaNode/Serve.antt =====
-- The store of a meta node of cmd/meta-node/main.go, through all that happens to the node.
use shard_db.Base.{
  ℕ, ◌≡◌, refl, sym, ap, ◌∙◌, Bool, true, false, ◌&&◌, none, some, List, [], ◌∷◌, All, arith,
  if◌then◌else◌, ltb, length, inl, inr, Option-cases,
}
use shard_db.Base.Result.{ok}
use shard_db.Bytes.{Bytes}
use shard_db.Meta.{MetaStore, Checked, Range, new_meta_store}
use shard_db.Meta.Tiles.{Tiles}
use shard_db.MetaNode.Replica.{HasSplitKey, apply-Tiles, new_meta_store-Tiles, route-found}
use shard_db.MetaNode.Server.{
  MetaText, MetaCall, raft_call, route_call, route_reply, meta_applier, apply_meta, reply_route,
  start_meta, handle_meta, serve_meta,
}
use shard_db.Raft.{RaftLibrary}
use shard_db.Raft.Node.{apply_committed, apply_committed-append}
use shard_db.Raft.Program.{
  Etcd, Happening, requested, selected, HasNoSnapshot, HasEffect, effects, committed, serve-effects,
  started, running,
}
use shard_db.Raft.Run.{RunLibrary, Running, done, ticked, ready, step}
use shard_db.Raft.Transport.{HttpTransport, handler}
use shard_db.Router.Agreement.{IsFound, get_shard-contains}
use shard_db.Utf8.{sanitize}
use shard_db.Wal.{Wal}

-- The node has not panicked, and its ranges tile the key space.
abbrev pub IsRouting : Checked MetaStore → Type 0
IsRouting m = (s : MetaStore) × (m ≡ some s) × Tiles none s.ranges

module _ {R : RaftLibrary} (e : Etcd R) (text : MetaText) where
  apply_meta-IsRouting :
      (data_ : Bytes) (m : Checked MetaStore)
      → HasSplitKey text.command data_
      → IsRouting m
      → IsRouting (apply_meta text data_ m)
  unfolding apply_meta
  apply_meta-IsRouting data_ m h (s, here, tiles) =
      let (t, applied, tiles') = apply-Tiles text.command data_ s h tiles in
      (t, ap (apply_meta text data_) here ∙ applied, tiles')

  IsRouting-if :
      (b : Bool) (m m' : Checked MetaStore)
      → IsRouting m
      → IsRouting m'
      → IsRouting (if b then m else m')
  IsRouting-if true m m' p q = p
  IsRouting-if false m m' p q = q

  apply_committed-IsRouting :
      (es : List R.Entry) (m : Checked MetaStore)
      → All (λ en. HasSplitKey text.command (e.entry_data en)) es
      → IsRouting m
      → IsRouting (apply_committed (meta_applier e text) es m)
  unfolding apply_committed
  apply_committed-IsRouting [] m h w = w
  apply_committed-IsRouting (en ∷ es) m h w = apply_committed-IsRouting es _ h.1 (
      IsRouting-if (e.is_normal en && ltb 0 (length (e.entry_data en))) _ _
        (apply_meta-IsRouting (e.entry_data en) m h.0 w) w)

  module _ (L : RunLibrary R (meta_applier e text)) where
    -- The handlers leave the store as it is.
    handle_meta-HasEffect : HasEffect L (λ r n. (handle_meta e text L r n).0) (λ r m. m)
    unfolding handle_meta step
    handle_meta-HasEffect (raft_call method body) n =
        elim (Option-cases (handler e.codec method body).1) [
          | inl no_message ↦ (ground arith, ground arith)
          | inr (m, decoded) ↦ (ground arith, ground arith)
        ]
    handle_meta-HasEffect (route_call key) n = (refl, refl)

    effects-committed :
        (stopped : Bool) (hs : List (Happening L MetaCall)) (m : Checked MetaStore)
        → effects L (λ r n. (handle_meta e text L r n).0) (λ r k. k) stopped hs m
          ≡ apply_committed (meta_applier e text) (committed L stopped hs) m
    unfolding apply_committed
    effects-committed b [] m = refl
    effects-committed b (requested r ∷ hs) m = effects-committed b hs m
    effects-committed b (selected done ∷ hs) m = effects-committed true hs m
    effects-committed b (selected ticked ∷ hs) m = effects-committed b hs m
    effects-committed true (selected (ready rd) ∷ hs) m = effects-committed true hs m
    effects-committed false (selected (ready rd) ∷ hs) m =
        effects-committed false hs (apply_committed (meta_applier e text) rd.committed_entries m)
        ∙ sym (
            apply_committed-append (meta_applier e text) rd.committed_entries (committed L false hs)
              m)

    start_meta-new :
        (id : ℕ) (cluster : Bytes) (wal : Wal) (t : HttpTransport) (n : Running L)
        → start_meta e text L id cluster wal ≡ ok (t, n)
        → (n.node.machine ≡ some new_meta_store) × (n.stopped ≡ false)
    unfolding start_meta started running
    start_meta-new id cluster wal t n h = (ground arith, ground arith)

    -- A meta node from its start, through any requests, ticks, Ready values without a snapshot, and a
    -- stop, where no Save panics and the commands that raft commits have split keys: the applier has
    -- not panicked, its store is the fold of Apply over the committed entries, and a request for
    -- the route of any key is answered with the shard of the one range that contains the key, and
    -- leaves the node as it is.
    pub serve_meta-route :
        (id : ℕ) (cluster : Bytes) (wal : Wal) (t : HttpTransport) (n n' : Running L)
        (hs : List (Happening L MetaCall))
        → start_meta e text L id cluster wal ≡ ok (t, n)
        → All (HasNoSnapshot L) hs
        → All (λ en. HasSplitKey text.command (e.entry_data en)) (committed L false hs)
        → serve_meta e text L hs n ≡ some n'
        → (s : MetaStore) × (n'.node.machine ≡ some s)
          × (apply_committed (meta_applier e text) (committed L false hs) (some new_meta_store)
              ≡ some s)
          × ((key : Bytes)
              → (range : Range) × IsFound key s s.ranges range
                × (handle_meta e text L (route_call key) n' ≡ (
                  n',
                  route_reply (some (record { key = sanitize key; shard_id = range.shard_id })),
                )))
    unfolding handle_meta reply_route
    serve_meta-route id cluster wal t n n' hs first bare keys served =
        let (new, on) = start_meta-new id cluster wal t n first in
        let after : n'.node.machine
            ≡ apply_committed (meta_applier e text) (committed L false hs) (some new_meta_store) =
          serve-effects L (λ r k. (handle_meta e text L r k).0) (λ r m. m) false hs n n'
            handle_meta-HasEffect on bare served
          ∙ effects-committed false hs n.node.machine
          ∙ ap (apply_committed (meta_applier e text) (committed L false hs)) new in
        let (s, here, tiles) =
          apply_committed-IsRouting (committed L false hs) (some new_meta_store) keys
            (new_meta_store, refl, new_meta_store-Tiles) in
        (
          s,
          after ∙ here,
          here,
          λ key.
              let (range, found) = get_shard-contains key s tiles in
              (
                range,
                found,
                ap (λ m. (n', reply_route key m)) (after ∙ here)
                    ∙ ap (λ r. (n', route_reply r)) (route-found key s range.shard_id found.0),
              ),
        )
