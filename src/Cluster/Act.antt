-- ===== src/Cluster/Act.antt =====
-- What a delivered request does to the abstract state of its shard, and what the requests of a
-- transaction are.
use mathlib.Core.Path.{subst}
use shard_db.Base.{
  or_else, ℕ, ◌≡◌, refl, sym, ap, ◌∙◌, Bool, false, ◌&&◌, ◌||◌, Option, none, some, List, [], ◌∷◌,
  All, ◌<◌, ◌^◌, if◌then◌else◌, inl, inr, Bool-cases,
}
use shard_db.Bytes.{Bytes, bytes_equal}
use shard_db.Store.{MemoryStore, Lock}
use shard_db.Store.Calls.{Call}
use shard_db.Store.Abstract.{Abstract, allows, set_lock, settle, release}
use shard_db.Store.Abstract.View.{view}
use shard_db.Store.Abstract.Refine.{call-Refined}
use shard_db.Store.Abstract.Written.{IsMvccStore}
use shard_db.Strings.Split.{Lacks}
use shard_db.Shard.{apply_entry}
use shard_db.Shard.Apply.{entry, apply_entry-entry, prepare_request, commit_request, abort_request}
use shard_db.Tree.{BTree}
use shard_db.Txn.{Message, prepare, commit, abort, oneshot}
use shard_db.Cluster.{Cluster, Wire, deliver, deliver_all, request, shard_of}

-- A request of the two-phase protocol, no field with a space, its timestamp a uint64.
abbrev pub IsPlainMessage : Message → Type 0
IsPlainMessage (prepare shard key value txn_id) =
    Lacks b' ' key × Lacks b' ' value × Lacks b' ' txn_id
IsPlainMessage (commit shard key txn_id ts) = Lacks b' ' key × Lacks b' ' txn_id × (ts < 2 ^ 64)
IsPlainMessage (abort shard key txn_id) = Lacks b' ' key × Lacks b' ' txn_id
IsPlainMessage (oneshot shard intents txn_id ts) = ⊥

-- What the request does at its own shard.
abbrev pub act : Message → Abstract → Abstract
act (prepare shard key value txn_id) a =
    if allows (a.held key) txn_id
    then set_lock key (some (record { txn_id = txn_id; value = value })) a
    else a
act (commit shard key txn_id ts) a = settle key txn_id ts (a.held key) a
act (abort shard key txn_id) a = release key txn_id (a.held key) a
act (oneshot shard intents txn_id ts) a = a

abbrev pub told : Bytes → Message → Abstract → Abstract
told addr m a = if bytes_equal (shard_of m) addr then act m a else a

abbrev pub told_all : Bytes → List Message → Abstract → Abstract
told_all addr [] a = a
told_all addr (m ∷ ms) a = told_all addr ms (told addr m a)

module _ {B : BTree} (wire : Wire) where
  abbrev Acted : Message → MemoryStore B → MemoryStore B → Type 0
  Acted m s t = IsMvccStore t × (view t ≡ act m (view s))

  -- The entry of a request, applied.
  applied :
      (m : Message) (s : MemoryStore B)
      → IsPlainMessage m
      → IsMvccStore s
      → Acted m s (apply_entry wire.parsers (entry (request wire m)) s)
  unfolding request
  applied (prepare shard key value txn_id) s h w =
      subst (Acted (prepare shard key value txn_id) s)
        (sym (apply_entry-entry wire.parsers (prepare_request key value txn_id) s h))
        (call-Refined (Call.prepare key value txn_id) s tt w)
  applied (commit shard key txn_id ts) s h w =
      subst (Acted (commit shard key txn_id ts) s)
        (sym (apply_entry-entry wire.parsers (commit_request key txn_id ts) s h))
        (call-Refined (Call.commit key txn_id ts) s h.2 w)
  applied (abort shard key txn_id) s h w =
      subst (Acted (abort shard key txn_id) s)
        (sym (apply_entry-entry wire.parsers (abort_request key txn_id) s h))
        (call-Refined (Call.abort key txn_id) s tt w)
  applied (oneshot shard intents txn_id ts) s h w = absurd h

  deliver-told :
      (m : Message) (cluster : Cluster B) (addr : Bytes)
      → IsPlainMessage m
      → IsMvccStore (cluster addr)
      → IsMvccStore (deliver wire m cluster addr)
        × (view (deliver wire m cluster addr) ≡ told addr m (view (cluster addr)))
  unfolding deliver
  deliver-told m cluster addr h w =
      let (kept, seen) = applied m (cluster addr) h w in
      elim (Bool-cases (bytes_equal (shard_of m) addr)) [
        | inl here ↦ (rw (here, deliver) kept, rw (here, deliver) seen)
        | inr away ↦ (rw (away, deliver) w, rw (away, deliver) refl)
      ]

  -- A shard's abstract state after requests that were delivered to all shards.
  pub deliver_all-told :
      (ms : List Message) (cluster : Cluster B) (addr : Bytes)
      → All IsPlainMessage ms
      → ((a : Bytes) → IsMvccStore (cluster a))
      → view (deliver_all wire ms cluster addr) ≡ told_all addr ms (view (cluster addr))
  unfolding deliver_all
  deliver_all-told [] cluster addr h w = refl
  deliver_all-told (m ∷ ms) cluster addr h w =
      deliver_all-told ms (deliver wire m cluster) addr h.1
        (λ a. (deliver-told m cluster a h.0 (w a)).0)
      ∙ ap (told_all addr ms) (deliver-told m cluster addr h.0 (w addr)).1

-- A prepare request of the transaction, a commit request of it at the timestamp, and an abort request
-- of it.
abbrev pub IsPrepare : Bytes → Message → Type 0
IsPrepare txn_id (prepare shard key value owner) = owner ≡ txn_id
IsPrepare txn_id _ = ⊥

abbrev pub IsCommit : Bytes → ℕ → Message → Type 0
IsCommit txn_id ts (commit shard key owner at) = (owner ≡ txn_id) × (at ≡ ts)
IsCommit txn_id ts _ = ⊥

abbrev pub IsAbort : Bytes → Message → Type 0
IsAbort txn_id (abort shard key owner) = owner ≡ txn_id
IsAbort txn_id _ = ⊥

abbrev pub key_of : Message → Bytes
key_of (prepare shard key value txn_id) = key
key_of (commit shard key txn_id ts) = key
key_of (abort shard key txn_id) = key
key_of (oneshot shard intents txn_id ts) = []

abbrev pub concerns : Bytes → Bytes → Message → Bool
concerns addr key m = bytes_equal (shard_of m) addr && bytes_equal (key_of m) key

-- Whether a request for the key goes to the address.
abbrev pub named : Bytes → Bytes → List Message → Bool
named addr key [] = false
named addr key (m ∷ ms) = concerns addr key m || named addr key ms

abbrev pub value_in : Message → Bytes
value_in (prepare shard key value txn_id) = value
value_in _ = []

-- The last value that is prepared for the key at the address.
abbrev pub last_prepared : Bytes → Bytes → List Message → Option Bytes
last_prepared addr key [] = none
last_prepared addr key (m ∷ ms) =
    or_else (last_prepared addr key ms) (if concerns addr key m then some (value_in m) else none)

-- The lock once a value is prepared, if one is.
abbrev pub relock : Bytes → Option Bytes → Option Lock → Option Lock
relock txn_id none l = l
relock txn_id (some value) l =
    if allows l txn_id then some (record { txn_id = txn_id; value = value }) else l

-- The lock once its owner has committed or aborted.
abbrev pub unlock : Bytes → Option Lock → Option Lock
unlock txn_id none = none
unlock txn_id (some l) = if bytes_equal l.txn_id txn_id then none else some l

abbrev pub owns : Bytes → Option Lock → Option Bytes
owns txn_id none = none
owns txn_id (some l) = if bytes_equal l.txn_id txn_id then some l.value else none
