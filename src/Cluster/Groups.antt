-- ===== src/Cluster/Groups.antt =====
-- The requests of a transaction, told by its writes: which keys they name at which address, and with
-- which values.
use shard_db.Base.{
  is_some, or_else_assoc, or_else-none, or_else, ℕ, ◌≡◌, refl, sym, ap, ◌∙◌, ◌&&◌, ◌||◌, Option,
  none, some, List, [], ◌∷◌, ◌++◌, arith, if◌then◌else◌, append-nil,
}
use shard_db.Bytes.{Bytes, bytes_equal}
use shard_db.Bytes.Order.{eq_of_equal}
use shard_db.Dict
use shard_db.Dict.{Dict, IsOnce, IsAbsent}
use shard_db.Router.{Router, locate}
use shard_db.Txn.{
  WriteIntent, Message, commit_intents, commit_messages, abort_messages, group_by_shard, group_of,
}
use shard_db.Txn.Phases.{shard_prepares, prepares}
use shard_db.Txn.Group.{writes_at, entry, get-group_by_shard}
use shard_db.Cluster.{shard_of}
use shard_db.Cluster.Act.{concerns, named, last_prepared, value_in}

-- The value that the transaction writes last to the key.
abbrev pub last_value : Bytes → List WriteIntent → Option Bytes
last_value key [] = none
last_value key (w ∷ ws) =
    or_else (last_value key ws) (if bytes_equal w.key key then some w.value else none)

-- The writes that a map of groups has at the address.
abbrev pub intents_at : Bytes → Dict (List WriteIntent) → List WriteIntent
intents_at addr [] = []
intents_at addr ((shard, intents) ∷ rest) =
    if bytes_equal shard addr then intents ++ intents_at addr rest else intents_at addr rest

pub is_some-or_else : (a b : Option Bytes) → is_some (or_else a b) ≡ (is_some b || is_some a)
is_some-or_else none none = refl
is_some-or_else none (some y) = refl
is_some-or_else (some x) none = refl
is_some-or_else (some x) (some y) = refl

module _ (addr key : Bytes) where
  last_prepared-append :
      (ms ns : List Message)
      → last_prepared addr key (ms ++ ns)
        ≡ or_else (last_prepared addr key ns) (last_prepared addr key ms)
  last_prepared-append [] ns = sym (or_else-none (last_prepared addr key ns))
  last_prepared-append (m ∷ ms) ns =
      ap (λ o. or_else o (if concerns addr key m then some (value_in m) else none))
        (last_prepared-append ms ns)
      ∙ sym (or_else_assoc (last_prepared addr key ns) (last_prepared addr key ms) _)

  pub named-append :
      (ms ns : List Message) → named addr key (ms ++ ns) ≡ (named addr key ms || named addr key ns)
  named-append [] ns = refl
  named-append (m ∷ ms) ns = ground (arith, named-append ms ns)

  last_value-append :
      (vs ws : List WriteIntent)
      → last_value key (vs ++ ws) ≡ or_else (last_value key ws) (last_value key vs)
  last_value-append [] ws = sym (or_else-none (last_value key ws))
  last_value-append (v ∷ vs) ws =
      ap (λ o. or_else o (if bytes_equal v.key key then some v.value else none))
        (last_value-append vs ws)
      ∙ sym (or_else_assoc (last_value key ws) (last_value key vs) _)

  last_prepared-shard_prepares :
      (txn_id shard : Bytes) (ws : List WriteIntent)
      → last_prepared addr key (shard_prepares txn_id shard ws)
        ≡ (if bytes_equal shard addr then last_value key ws else none)
  unfolding shard_of
  last_prepared-shard_prepares txn_id shard [] = ground arith
  last_prepared-shard_prepares txn_id shard (w ∷ ws) =
      ground (arith, last_prepared-shard_prepares txn_id shard ws)

  pub last_prepared-prepares :
      (txn_id : Bytes) (groups : Dict (List WriteIntent))
      → last_prepared addr key (prepares txn_id groups) ≡ last_value key (intents_at addr groups)
  last_prepared-prepares txn_id [] = refl
  last_prepared-prepares txn_id ((shard, intents) ∷ rest) = ground (
    arith,
    last_prepared-append (shard_prepares txn_id shard intents) (prepares txn_id rest),
    last_prepared-shard_prepares txn_id shard intents,
    last_prepared-prepares txn_id rest,
    last_value-append intents (intents_at addr rest),
    or_else-none (last_prepared addr key (prepares txn_id rest)),
  )

  named-commit_intents :
      (txn_id shard : Bytes) (ts : ℕ) (ws : List WriteIntent)
      → named addr key (commit_intents txn_id ts shard ws)
        ≡ (bytes_equal shard addr && is_some (last_value key ws))
  unfolding shard_of commit_intents
  named-commit_intents txn_id shard ts [] = ground arith
  named-commit_intents txn_id shard ts (w ∷ ws) = ground (
    arith,
    named-commit_intents txn_id shard ts ws,
    is_some-or_else (last_value key ws) (if bytes_equal w.key key then some w.value else none),
  )

  pub named-commit_messages :
      (txn_id : Bytes) (ts : ℕ) (groups : Dict (List WriteIntent))
      → named addr key (commit_messages txn_id ts groups)
        ≡ is_some (last_value key (intents_at addr groups))
  unfolding commit_messages
  named-commit_messages txn_id ts [] = refl
  named-commit_messages txn_id ts ((shard, intents) ∷ rest) = ground (
    arith,
    named-append (commit_intents txn_id ts shard intents) (commit_messages txn_id ts rest),
    named-commit_intents txn_id shard ts intents,
    named-commit_messages txn_id ts rest,
    last_value-append intents (intents_at addr rest),
    is_some-or_else (last_value key (intents_at addr rest)) (last_value key intents),
  )

  pub named-abort_messages :
      (r : Router) (txn_id : Bytes) (ws : List WriteIntent)
      → named addr key (abort_messages r txn_id ws) ≡ is_some (last_value key (writes_at r addr ws))
  unfolding shard_of abort_messages
  named-abort_messages r txn_id [] = refl
  named-abort_messages r txn_id (w ∷ ws) = ground (
    arith,
    named-abort_messages r txn_id ws,
    is_some-or_else (last_value key (writes_at r addr ws))
        (if bytes_equal w.key key then some w.value else none),
  )

group_by_shard-IsOnce :
    (r : Router) (ws : List WriteIntent) (groups : Dict (List WriteIntent))
    → IsOnce groups
    → IsOnce (group_by_shard r ws groups)
unfolding group_by_shard
group_by_shard-IsOnce r [] groups h = h
group_by_shard-IsOnce r (w ∷ ws) groups h = group_by_shard-IsOnce r ws _ (
    Dict.put-IsOnce (locate w.key r) (group_of (Dict.get (locate w.key r) groups) ++ w ∷ []) groups
      h)

intents_at-IsAbsent :
    (addr : Bytes) (groups : Dict (List WriteIntent))
    → IsAbsent addr groups
    → intents_at addr groups ≡ []
intents_at-IsAbsent addr [] h = refl
intents_at-IsAbsent addr ((shard, intents) ∷ rest) h =
    ground (arith, intents_at-IsAbsent addr rest h.1)

intents_at-get :
    (addr : Bytes) (groups : Dict (List WriteIntent))
    → IsOnce groups
    → intents_at addr groups ≡ group_of (Dict.get addr groups)
unfolding Dict.get
intents_at-get addr [] h = refl
intents_at-get addr ((shard, intents) ∷ rest) h = ground (
  arith,
  intents_at-get addr rest h.1,
  eq_of_equal shard addr,
  ap (λ (a : Bytes). intents_at a rest),
  intents_at-IsAbsent shard rest h.0,
  append-nil intents,
)

group_of-entry : (ws : List WriteIntent) → group_of (entry none ws) ≡ ws
group_of-entry [] = refl
group_of-entry (w ∷ ws) = refl

-- The groups hold at an address what the router places there.
pub intents_at-group_by_shard :
    (r : Router) (addr : Bytes) (ws : List WriteIntent)
    → intents_at addr (group_by_shard r ws []) ≡ writes_at r addr ws
intents_at-group_by_shard r addr ws =
    intents_at-get addr (group_by_shard r ws []) (group_by_shard-IsOnce r ws [] tt)
    ∙ ap group_of (get-group_by_shard r addr ws)
    ∙ group_of-entry (writes_at r addr ws)
