-- ===== src/Store/Abstract.antt =====
-- The contract of the store of internal/storage/memory.go: at most one value for each key and
-- timestamp, and at most one lock for each key. It has no tree, no encoded keys and no order.
pub mod View
pub mod Collect
pub mod Drop
pub mod Written
pub mod Refine
use shard_db.Base.{
  ℕ, ◌<◌, ◌≤◌, ◌≡◌, ◌⊎◌, Bool, true, false, ◌&&◌, ◌||◌, Option, none, some, List, [], ◌∷◌, ◌==◌,
  if◌then◌else◌,
}
use shard_db.Bytes.{Bytes, bytes_equal, codes}
use shard_db.Bytes.Diverge.{diverges}
use shard_db.Dict.{Dict}
use shard_db.Mvcc.{decode_key}
use shard_db.Store.{Lock, BatchOp}
use shard_db.Store.Calls.{Call, prepare, commit, abort, one_phase_commit, put, run_gc, ingest}

pub record Abstract : Type 0 where
  pub at : Bytes → ℕ → Option Bytes
  pub held : Bytes → Option Lock

abbrev pub empty : Abstract
empty = record { at = λ key ts. none; held = λ key. none }

abbrev pub write : Bytes → ℕ → Bytes → Abstract → Abstract
write key ts value a = record a {
  at = λ j t. if bytes_equal key j && ts == t then some value else a.at j t;
}

abbrev pub set_lock : Bytes → Option Lock → Abstract → Abstract
set_lock key lock a = record a { held = λ j. if bytes_equal key j then lock else a.held j }

-- Whether the transaction may write where this lock is.
abbrev pub allows : Option Lock → Bytes → Bool
allows none txn_id = true
allows (some lock) txn_id = bytes_equal lock.txn_id txn_id

abbrev pub allows_all : List BatchOp → Bytes → Abstract → Bool
allows_all [] txn_id a = true
allows_all (op ∷ ops) txn_id a = allows (a.held op.key) txn_id && allows_all ops txn_id a

abbrev pub write_batch : List BatchOp → ℕ → Abstract → Abstract
write_batch [] ts a = a
write_batch (op ∷ ops) ts a = write_batch ops ts (set_lock op.key none (write op.key ts op.value a))

abbrev pub write_pairs : Dict Bytes → Abstract → Abstract
write_pairs [] a = a
write_pairs ((k, v) ∷ rest) a = write_pairs rest (write (decode_key k).0 (decode_key k).1 v a)

-- What a commit makes of a lock.
abbrev pub settle : Bytes → Bytes → ℕ → Option Lock → Abstract → Abstract
settle key txn_id ts none a = a
settle key txn_id ts (some lock) a =
    if bytes_equal lock.txn_id txn_id then set_lock key none (write key ts lock.value a) else a

-- What an abort makes of a lock.
abbrev pub release : Bytes → Bytes → Option Lock → Abstract → Abstract
release key txn_id none a = a
release key txn_id (some lock) a = if bytes_equal lock.txn_id txn_id then set_lock key none a else a

-- A newer version than `ts`, which is not after `safe_ts`.
abbrev pub Superseded : ℕ → Abstract → Bytes → ℕ → Type 0
Superseded safe_ts b key ts =
    (newer : ℕ) × (ts < newer) × (newer ≤ safe_ts) × (value : Bytes) × (b.at key newer ≡ some value)

-- No key with a version is a proper prefix or a proper extension of this key.
abbrev pub IsAlone : Bytes → Abstract → Type 0
IsAlone key a =
    (j : Bytes) (t : ℕ) (value : Bytes)
    → a.at j t ≡ some value
    → (bytes_equal j key || diverges j key) ≡ true

-- A collection may drop a version only where a newer one that is not after `safe_ts` stays, and it
-- drops the superseded versions of an alone key.
pub record Collected (safe_ts : ℕ) (a b : Abstract) : Type 0 where
  pub locks_stay : b.held ≡ a.held
  pub versions_stay :
      (key : Bytes) (ts : ℕ)
      → (b.at key ts ≡ a.at key ts) ⊎ ((b.at key ts ≡ none) × Superseded safe_ts b key ts)
  pub superseded_go :
      (key : Bytes) (ts : ℕ) → IsAlone key a → Superseded safe_ts a key ts → b.at key ts ≡ none

-- What each call may do.
abbrev pub Step : Call → Abstract → Abstract → Type 0
Step (prepare key value txn_id) a b = b ≡ (
    if allows (a.held key) txn_id
    then set_lock key (some (record { txn_id = txn_id; value = value })) a
    else a)
Step (commit key txn_id ts) a b = b ≡ settle key txn_id ts (a.held key) a
Step (abort key txn_id) a b = b ≡ release key txn_id (a.held key) a
Step (one_phase_commit ops txn_id ts) a b =
    b ≡ (if allows_all ops txn_id a then write_batch ops ts a else a)
Step (put key value) a b =
    b
    ≡ (if allows (a.held key) (codes "legacy") then set_lock key none (write key 1 value a) else a)
Step (run_gc safe_ts) a b = Collected safe_ts a b
Step (ingest pairs) a b = b ≡ write_pairs pairs a

-- A run of the contract.
pub data Steps : List Call → Abstract → Abstract → Type 0 where
  done : {a : Abstract} → Steps [] a a
  step :
      {c : Call} {cs : List Call} {a b d : Abstract}
      → Step c a b
      → Steps cs b d
      → Steps (c ∷ cs) a d
