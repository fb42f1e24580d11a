-- ===== src/Txn/Requests.antt =====
-- The commit and the abort requests of internal/txn/coordinator.go, described on the writes.
use shard_db.Base.{ℕ, ◌≡◌, refl, ap, List, [], ◌∷◌, ◌++◌, map}
use mathlib.Core.Path.{ap₂}
use shard_db.Bytes.{Bytes}
use shard_db.Dict.{Dict}
use shard_db.Router.{Router, locate}
use shard_db.Txn.{
  WriteIntent, Message, commit, abort, commit_intents, commit_messages, abort_messages,
}

-- A commit request for each write of each group, to the group's address.
abbrev pub commits : Bytes → ℕ → Dict (List WriteIntent) → List Message
commits txn_id ts [] = []
commits txn_id ts ((addr, writes) ∷ groups) =
    map (λ w. commit addr w.key txn_id ts) writes ++ commits txn_id ts groups

-- An abort request for each write, to the address of its key.
abbrev pub aborts : Router → Bytes → List WriteIntent → List Message
aborts r txn_id writes = map (λ w. abort (locate w.key r) w.key txn_id) writes

commit_intents-map :
    (txn_id : Bytes) (ts : ℕ) (addr : Bytes) (writes : List WriteIntent)
    → commit_intents txn_id ts addr writes ≡ map (λ w. commit addr w.key txn_id ts) writes
unfolding commit_intents
commit_intents-map txn_id ts addr [] = refl
commit_intents-map txn_id ts addr (w ∷ ws) =
    ap (λ ms. commit addr w.key txn_id ts ∷ ms) (commit_intents-map txn_id ts addr ws)

pub commit_messages-commits :
    (txn_id : Bytes) (ts : ℕ) (groups : Dict (List WriteIntent))
    → commit_messages txn_id ts groups ≡ commits txn_id ts groups
unfolding commit_messages
commit_messages-commits txn_id ts [] = refl
commit_messages-commits txn_id ts ((addr, writes) ∷ groups) =
    ap₂ (λ (a b : List Message). a ++ b) (commit_intents-map txn_id ts addr writes)
      (commit_messages-commits txn_id ts groups)

pub abort_messages-aborts :
    (r : Router) (txn_id : Bytes) (writes : List WriteIntent)
    → abort_messages r txn_id writes ≡ aborts r txn_id writes
unfolding abort_messages
abort_messages-aborts r txn_id [] = refl
abort_messages-aborts r txn_id (w ∷ ws) =
    ap (λ ms. abort (locate w.key r) w.key txn_id ∷ ms) (abort_messages-aborts r txn_id ws)
