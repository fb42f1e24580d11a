-- ===== src/Cluster/Sent.antt =====
-- The kinds of the requests in a log, and requests that arrive in another order.
use shard_db.Base.{
  is_some, ℕ, ◌≡◌, refl, ap, Bool, true, false, List, [], ◌∷◌, ◌++◌, All, All-append, All-Has,
  All-imp, Has, arith, if◌then◌else◌, inl, inr, Bool-cases,
}
use shard_db.Bytes.{Bytes}
use shard_db.Dict.{Dict}
use shard_db.Router.{Router}
use shard_db.Txn.{
  WriteIntent, Message, prepare, commit, abort, oneshot, commit_intents, commit_messages,
  abort_messages,
}
use shard_db.Txn.Phases.{shard_prepares, prepares}
use shard_db.Cluster.Act.{concerns, named, last_prepared, IsPrepare, IsCommit, IsAbort}

abbrev pub is_prepare : Message → Bool
is_prepare (prepare shard key value txn_id) = true
is_prepare _ = false

abbrev pub is_commit : Message → Bool
is_commit (commit shard key txn_id ts) = true
is_commit _ = false

abbrev pub is_abort : Message → Bool
is_abort (abort shard key txn_id) = true
is_abort _ = false

-- The requests of one kind, in their order.
abbrev pub those : (Message → Bool) → List Message → List Message
those is_kind [] = []
those is_kind (m ∷ ms) = if is_kind m then m ∷ those is_kind ms else those is_kind ms

-- The same requests, in any order and any number of times.
abbrev pub SameMessages : List Message → List Message → Type 0
SameMessages ms ns = All (λ m. Has m ns) ms × All (λ m. Has m ms) ns

pub those-every :
    (is_kind : Message → Bool) (ms : List Message)
    → All (λ m. is_kind m ≡ true) ms
    → those is_kind ms ≡ ms
those-every is_kind [] h = refl
those-every is_kind (m ∷ ms) h = ground (arith, those-every is_kind ms h.1)

pub those-none :
    (is_kind : Message → Bool) (ms : List Message)
    → All (λ m. is_kind m ≡ false) ms
    → those is_kind ms ≡ []
those-none is_kind [] h = refl
those-none is_kind (m ∷ ms) h = ground (arith, those-none is_kind ms h.1)

pub those-append :
    (is_kind : Message → Bool) (ms ns : List Message)
    → those is_kind (ms ++ ns) ≡ those is_kind ms ++ those is_kind ns
those-append is_kind [] ns = refl
those-append is_kind (m ∷ ms) ns = ground (arith, those-append is_kind ms ns)

pub All-those :
    (P : Message → Type 0) (is_kind : Message → Bool) (ms : List Message)
    → All P ms
    → All P (those is_kind ms)
All-those P is_kind [] h = tt
All-those P is_kind (m ∷ ms) h = ground (arith, All-those P is_kind ms h.1)

pub kind_prepare :
    (txn_id : Bytes) (m : Message)
    → IsPrepare txn_id m
    → (is_prepare m ≡ true) × (is_commit m ≡ false) × (is_abort m ≡ false)
kind_prepare txn_id (prepare shard key value owner) h = (refl, refl, refl)
kind_prepare txn_id (commit shard key owner ts) h = absurd h
kind_prepare txn_id (abort shard key owner) h = absurd h
kind_prepare txn_id (oneshot shard intents owner ts) h = absurd h

pub kind_commit :
    (txn_id : Bytes) (ts : ℕ) (m : Message)
    → IsCommit txn_id ts m
    → (is_prepare m ≡ false) × (is_commit m ≡ true)
kind_commit txn_id ts (prepare shard key value owner) h = absurd h
kind_commit txn_id ts (commit shard key owner at) h = (refl, refl)
kind_commit txn_id ts (abort shard key owner) h = absurd h
kind_commit txn_id ts (oneshot shard intents owner at) h = absurd h

pub kind_abort :
    (txn_id : Bytes) (m : Message) → IsAbort txn_id m → (is_prepare m ≡ false) × (is_abort m ≡ true)
kind_abort txn_id (prepare shard key value owner) h = absurd h
kind_abort txn_id (commit shard key owner ts) h = absurd h
kind_abort txn_id (abort shard key owner) h = (refl, refl)
kind_abort txn_id (oneshot shard intents owner ts) h = absurd h

shard_prepares-IsPrepare :
    (txn_id shard : Bytes) (ws : List WriteIntent)
    → All (IsPrepare txn_id) (shard_prepares txn_id shard ws)
shard_prepares-IsPrepare txn_id shard [] = tt
shard_prepares-IsPrepare txn_id shard (w ∷ ws) = (refl, shard_prepares-IsPrepare txn_id shard ws)

pub prepares-IsPrepare :
    (txn_id : Bytes) (groups : Dict (List WriteIntent))
    → All (IsPrepare txn_id) (prepares txn_id groups)
prepares-IsPrepare txn_id [] = tt
prepares-IsPrepare txn_id ((shard, intents) ∷ rest) =
    All-append (IsPrepare txn_id) (shard_prepares txn_id shard intents) (prepares txn_id rest)
      (shard_prepares-IsPrepare txn_id shard intents) (prepares-IsPrepare txn_id rest)

commit_intents-IsCommit :
    (txn_id shard : Bytes) (ts : ℕ) (ws : List WriteIntent)
    → All (IsCommit txn_id ts) (commit_intents txn_id ts shard ws)
unfolding commit_intents
commit_intents-IsCommit txn_id shard ts [] = tt
commit_intents-IsCommit txn_id shard ts (w ∷ ws) =
    ((refl, refl), commit_intents-IsCommit txn_id shard ts ws)

pub commit_messages-IsCommit :
    (txn_id : Bytes) (ts : ℕ) (groups : Dict (List WriteIntent))
    → All (IsCommit txn_id ts) (commit_messages txn_id ts groups)
unfolding commit_messages
commit_messages-IsCommit txn_id ts [] = tt
commit_messages-IsCommit txn_id ts ((shard, intents) ∷ rest) =
    All-append (IsCommit txn_id ts) (commit_intents txn_id ts shard intents)
      (commit_messages txn_id ts rest) (commit_intents-IsCommit txn_id shard ts intents)
      (commit_messages-IsCommit txn_id ts rest)

pub abort_messages-IsAbort :
    (r : Router) (txn_id : Bytes) (ws : List WriteIntent)
    → All (IsAbort txn_id) (abort_messages r txn_id ws)
unfolding abort_messages
abort_messages-IsAbort r txn_id [] = tt
abort_messages-IsAbort r txn_id (w ∷ ws) = (refl, abort_messages-IsAbort r txn_id ws)

module _ (addr key : Bytes) where
  named-Has :
      (m : Message) (ms : List Message)
      → Has m ms
      → concerns addr key m ≡ true
      → named addr key ms ≡ true
  named-Has m [] h c = absurd h
  named-Has m (n ∷ ms) (inl e) c = ground (arith, ap (concerns addr key) e)
  named-Has m (n ∷ ms) (inr h) c = ground (arith, named-Has m ms h c)

  -- Requests that are all in another list name no more keys than it does.
  pub named_within :
      (ms ns : List Message)
      → All (λ m. Has m ns) ms
      → named addr key ms ≡ true
      → named addr key ns ≡ true
  named_within [] ns h n = absurd (cc n)
  named_within (m ∷ ms) ns h n = elim (Bool-cases (concerns addr key m)) [
    | inl here ↦ named-Has m ns h.0 here
    | inr other ↦ named_within ms ns h.1 (ground arith)
  ]

  pub named-SameMessages :
      (ms ns : List Message) → SameMessages ms ns → named addr key ms ≡ named addr key ns
  named-SameMessages ms ns h = ground (arith, named_within ms ns h.0, named_within ns ms h.1)

  pub is_some-last_prepared :
      (ms : List Message) → is_some (last_prepared addr key ms) ≡ named addr key ms
  is_some-last_prepared [] = refl
  is_some-last_prepared (m ∷ ms) = ground (arith, is_some-last_prepared ms)

pub All-within :
    (P : Message → Type 0) (ms ns : List Message) → All (λ m. Has m ns) ms → All P ns → All P ms
All-within P ms ns h p = All-imp (λ m k. All-Has P m ns p k) ms h
