-- ===== src/Cluster/OnePhase.antt =====
-- A transaction on one shard, from Commit of internal/txn/coordinator.go to the store of the shard.
use shard_db.Base.{
  or_else_assoc, is_some, ℕ, ◌≡◌, refl, ap, ◌∙◌, true, ◌&&◌, none, some, List, [], ◌∷◌, arith,
  if◌then◌else◌, inl, inr, ◌==◌, ◌<◌, ◌^◌, Bool-cases, or_else,
}
use shard_db.Base.Result.{ok}
use shard_db.Bytes.{Bytes, bytes_equal}
use shard_db.Bytes.Order.{equal_refl}
use shard_db.Dict
use shard_db.Dict.{Dict}
use shard_db.Shard.{Req, storage_ops, apply_entry}
use shard_db.Shard.Apply.{oneshot_request, entry, apply_entry-entry}
use shard_db.Store.{MemoryStore, Lock, BatchOp}
use shard_db.Store.Calls.{Call, call}
use shard_db.Store
use shard_db.Store.Items.{IsMvcc}
use shard_db.Store.Abstract.{Abstract, allows_all, write_batch, write, set_lock}
use shard_db.Store.Abstract.View.{view}
use shard_db.Store.Abstract.Refine.{call-Refined}
use shard_db.Tree.{BTree}
use shard_db.Txn.{
  Coordinator, Transaction, WriteIntent, Env, oneshot, set_state, committed, active, commit_txn,
  commit_groups, commit_one_phase, group_by_shard,
}
use shard_db.Txn.Commit.{commit-active}
use shard_db.Cluster.{Cluster, Wire, deliver, deliver_all, oneshot_ops, request, shard_of}
use shard_db.Cluster.Groups.{is_some-or_else, last_value}

-- The operations that the applier makes of the writes.
abbrev pub batch : List WriteIntent → List BatchOp
batch [] = []
batch (w ∷ ws) = record { key = w.key; value = w.value } ∷ batch ws

storage_ops-oneshot_ops : (ws : List WriteIntent) → storage_ops (oneshot_ops ws) ≡ batch ws
unfolding storage_ops oneshot_ops
storage_ops-oneshot_ops [] = refl
storage_ops-oneshot_ops (w ∷ ws) =
    ap (λ ops. record { key = w.key; value = w.value } ∷ ops) (storage_ops-oneshot_ops ws)

-- A batch, by key.
at-write_batch :
    (key : Bytes) (ts t : ℕ) (ws : List WriteIntent) (a : Abstract)
    → (write_batch (batch ws) ts a).at key t
      ≡ (if ts == t then or_else (last_value key ws) (a.at key t) else a.at key t)
at-write_batch key ts t [] a = ground arith
at-write_batch key ts t (w ∷ ws) a = ground (
  arith,
  at-write_batch key ts t ws (set_lock w.key none (write w.key ts w.value a)),
  or_else_assoc (last_value key ws) (if bytes_equal w.key key then some w.value else none)
      (a.at key t),
)

held-write_batch :
    (key : Bytes) (ts : ℕ) (ws : List WriteIntent) (a : Abstract)
    → (write_batch (batch ws) ts a).held key
      ≡ (if is_some (last_value key ws) then none else a.held key)
held-write_batch key ts [] a = refl
held-write_batch key ts (w ∷ ws) a = ground (
  arith,
  held-write_batch key ts ws (set_lock w.key none (write w.key ts w.value a)),
  is_some-or_else (last_value key ws) (if bytes_equal w.key key then some w.value else none),
)

-- What a batch of the transaction makes of a key, all of it or nothing.
abbrev pub AllOrNothing : Bytes → ℕ → Bytes → List WriteIntent → Abstract → Abstract → Type 0
AllOrNothing txn_id ts key intents before after =
    let allowed = allows_all (batch intents) txn_id before in
    (after.held key
      ≡ (if allowed && is_some (last_value key intents) then none else before.held key))
    × ((t : ℕ)
        → after.at key t ≡ (
            if allowed && ts == t
            then or_else (last_value key intents) (before.at key t)
            else before.at key t))

batch-AllOrNothing :
    (txn_id : Bytes) (ts : ℕ) (key : Bytes) (intents : List WriteIntent) (a b : Abstract)
    → b ≡ (if allows_all (batch intents) txn_id a then write_batch (batch intents) ts a else a)
    → AllOrNothing txn_id ts key intents a b
batch-AllOrNothing txn_id ts key intents a b e =
    elim (Bool-cases (allows_all (batch intents) txn_id a)) [
      | inl allowed ↦
          let here : b ≡ write_batch (batch intents) ts a = ground arith in
          let held = ap (λ (x : Abstract). x.held key) here ∙ held-write_batch key ts intents a in
          (
            ground (arith, held),
            λ t.
                let at =
                  ap (λ (x : Abstract). x.at key t) here ∙ at-write_batch key ts t intents a in
                ground (arith, at),
          )
      | inr refused ↦
          let here : b ≡ a = ground arith in
          (
            ground (arith, ap (λ (x : Abstract). x.held key) here),
            λ t. ground (arith, ap (λ (x : Abstract). x.at key t) here),
          )
    ]

commit_one :
    (env : Env) (ts : ℕ) (txn_id shard : Bytes) (intents : List WriteIntent) (c : Coordinator)
    → env.responds [] (oneshot shard intents txn_id ts) ≡ true
    → commit_groups env ts txn_id ((shard, intents) ∷ []) c []
      ≡ ((set_state txn_id committed c, oneshot shard intents txn_id ts ∷ []), ok tt)
unfolding commit_groups commit_one_phase
commit_one env ts txn_id shard intents c answered = ground arith

module _ {B : BTree} (wire : Wire) (cluster : Cluster B) (shard : Bytes) where
  abbrev body_of : Bytes → ℕ → List WriteIntent → Req
  body_of txn_id ts intents = record { txn_id = txn_id; ts = ts; ops = oneshot_ops intents }

  -- The store of the shard once it has applied a oneshot request, if JSON keeps its body.
  delivered-oneshot :
      (txn_id : Bytes) (ts : ℕ) (intents : List WriteIntent)
      → wire.parsers.unmarshal (wire.marshal (body_of txn_id ts intents))
        ≡ body_of txn_id ts intents
      → deliver wire (oneshot shard intents txn_id ts) cluster shard
        ≡ call (Call.one_phase_commit (batch intents) txn_id ts) (cluster shard)
  unfolding deliver request shard_of
  delivered-oneshot txn_id ts intents json =
      let r = oneshot_request (wire.marshal (body_of txn_id ts intents)) in
      let here : deliver wire (oneshot shard intents txn_id ts) cluster shard
          ≡ apply_entry wire.parsers (entry r) (cluster shard) =
        ground (arith, equal_refl shard) in
      here
      ∙ apply_entry-entry wire.parsers r (cluster shard) tt
      ∙ ap
          (λ (q : Req).
            (Store.one_phase_commit (storage_ops q.ops) q.txn_id q.ts (cluster shard)).0)
          json
      ∙ ap (λ ops. (Store.one_phase_commit ops txn_id ts (cluster shard)).0)
          (storage_ops-oneshot_ops intents)

  -- Commit of an active transaction whose writes lie on one shard, whose oneshot request is answered
  -- with status 200: it succeeds and sends that request only. If JSON keeps the body of the
  -- request, then once the well-formed store of the shard has applied it: where another transaction
  -- holds one of the keys, no key has other versions or another lock than before, though Commit
  -- has succeeded; else every key that is written there has the last value that is written to it, at
  -- the commit's timestamp, and no lock, and other keys are as before.
  pub commit_txn-AllOrNothing :
      (env : Env) (ts : ℕ) (txn_id : Bytes) (txn : Transaction) (w : WriteIntent)
      (ws : List WriteIntent) (c : Coordinator) (intents : List WriteIntent) (key : Bytes)
      → Dict.get txn_id c.transactions ≡ some txn
      → txn.state ≡ active
      → txn.writes ≡ w ∷ ws
      → group_by_shard c.router txn.writes [] ≡ (shard, intents) ∷ []
      → env.responds [] (oneshot shard intents txn_id ts) ≡ true
      → wire.parsers.unmarshal (wire.marshal (body_of txn_id ts intents))
        ≡ body_of txn_id ts intents
      → ts < 2 ^ 64
      → IsMvcc (B.items (cluster shard).tree)
      → let r = commit_txn env ts txn_id c [] in
        (r.1 ≡ ok tt)
        × (r.0.1 ≡ oneshot shard intents txn_id ts ∷ [])
        × AllOrNothing txn_id ts key intents
            (view (cluster shard))
            (view (deliver_all wire r.0.1 cluster shard))
  unfolding deliver_all
  commit_txn-AllOrNothing env ts txn_id txn w ws c intents key known is_active has one answered json
        fits mvcc =
      let m = oneshot shard intents txn_id ts in
      let run =
        commit-active env ts txn_id txn w ws c [] known is_active has
        ∙ ap (λ g. commit_groups env ts txn_id g c []) one
        ∙ commit_one env ts txn_id shard intents c answered in
      let log : (commit_txn env ts txn_id c []).0.1 ≡ m ∷ [] = ap (λ r. r.0.1) run in
      (
        ap (λ r. r.1) run,
        log,
        batch-AllOrNothing txn_id ts key intents (view (cluster shard))
            (view (deliver_all wire (commit_txn env ts txn_id c []).0.1 cluster shard))
            (ap (λ ms. view (deliver_all wire ms cluster shard)) log
              ∙ ap view (delivered-oneshot txn_id ts intents json)
              ∙ (call-Refined (Call.one_phase_commit (batch intents) txn_id ts) (cluster shard) fits
                  mvcc).1),
      )
