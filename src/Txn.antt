-- ===== src/Txn.antt =====
-- internal/txn/coordinator.go: transactions of the proxy, committed in one phase or in two.
-- The network is an environment that answers each request, seen with the requests before it; the
-- log lists the requests in the order in which the code starts them (the commit and abort requests
-- run on goroutines of their own, and nothing waits for their answers). A reading of the clock is
-- an argument.
pub mod Group
pub mod Phases
pub mod Commit
pub mod Requests
pub mod Verdict
pub mod State
pub mod Overlap
mod Tests
use shard_db.Base.{
  ℕ, ◌+◌, Bool, true, false, Option, none, some, List, [], ◌∷◌, ◌++◌, length, ◌==◌, if◌then◌else◌,
  map,
}
use shard_db.Base.Result.{Result, ok, err}
use shard_db.Bytes.{Bytes, bytes_equal, codes}
use shard_db.Decimal.{format_decimal}
use shard_db.Dict
use shard_db.Dict.{Dict}
use shard_db.Router.{Router, locate}

pub data TxnState : Type 0 where
  active committed aborted : TxnState

pub record WriteIntent : Type 0 where
  pub key : Bytes
  pub value : Bytes

pub record Transaction : Type 0 where
  pub id : Bytes
  pub state : TxnState
  pub start_time : ℕ
  pub writes : List WriteIntent

pub record Coordinator : Type 0 where
  pub transactions : Dict Transaction
  pub router : Router

-- The requests to a shard node, with the shard's address first.
pub data Message : Type 0 where
  prepare : Bytes → Bytes → Bytes → Bytes → Message
  commit : Bytes → Bytes → Bytes → ℕ → Message
  abort : Bytes → Bytes → Bytes → Message
  oneshot : Bytes → List WriteIntent → Bytes → ℕ → Message

pub data TxnError : Type 0 where
  not_active : TxnError
  unknown_txn : TxnError
  prepare_failed : Bytes → Bytes → TxnError
  oneshot_failed : TxnError

-- What surrounds the coordinator: whether a request is answered with status 200, given those before
-- it, and the orders that Go chooses for the two ranges over the shards.
pub record Env : Type 0 where
  pub responds : List Message → Message → Bool
  pub prepare_order : Dict (List WriteIntent) → Dict (List WriteIntent)
  pub commit_order : Dict (List WriteIntent) → Dict (List WriteIntent)

-- NewCoordinator
unfoldable pub new_coordinator : Router → Coordinator
new_coordinator r = record { transactions = []; router = r }

-- Begin, with its two readings of the clock in nanoseconds
unfoldable pub begin : ℕ → ℕ → Coordinator → Coordinator × Bytes
begin now start c =
    let id = codes "txn-" ++ format_decimal now in
    (
      record c {
        transactions =
            Dict.put id (record { id = id; state = active; start_time = start; writes = [] })
              c.transactions;
      },
      id,
    )

-- AddWrite
unfoldable pub add_write :
    Bytes → Bytes → Bytes → Coordinator → Coordinator × Result TxnError (Unit {0})
add_write txn_id key value c = elim (Dict.get txn_id c.transactions) [
  | none ↦ (c, err not_active)
  | some txn ↦ elim txn.state [
    | active ↦ (
      record c {
        transactions =
            Dict.put txn_id
              (record txn { writes = txn.writes ++ record { key = key; value = value } ∷ [] })
              c.transactions;
      },
      ok tt,
    )
    | committed ↦ (c, err not_active)
    | aborted ↦ (c, err not_active)
  ]
]

-- `txn.State = state`, through the pointer that the map holds
unfoldable pub set_state : Bytes → TxnState → Coordinator → Coordinator
set_state txn_id state c = elim (Dict.get txn_id c.transactions) [
  | none ↦ c
  | some txn ↦ record c {
    transactions = Dict.put txn_id (record txn { state = state }) c.transactions;
  }
]

-- the abort requests for a list of writes
unfoldable pub abort_messages : Router → Bytes → List WriteIntent → List Message
abort_messages r txn_id [] = []
abort_messages r txn_id (w ∷ ws) = abort (locate w.key r) w.key txn_id ∷ abort_messages r txn_id ws

-- Abort, with the requests that it makes
unfoldable pub abort_txn :
    Bytes → Coordinator → List Message → (Coordinator × List Message) × Result TxnError (Unit {0})
abort_txn txn_id c log = elim (Dict.get txn_id c.transactions) [
  | none ↦ ((c, log), err unknown_txn)
  | some txn ↦
      ((set_state txn_id aborted c, log ++ abort_messages c.router txn_id txn.writes), ok tt)
]

-- a missing key of the map reads as a nil slice
abbrev pub group_of : Option (List WriteIntent) → List WriteIntent
group_of none = []
group_of (some g) = g

-- the loop that groups the writes by the shard's address
unfoldable pub group_by_shard :
    Router → List WriteIntent → Dict (List WriteIntent) → Dict (List WriteIntent)
group_by_shard r [] groups = groups
group_by_shard r (w ∷ ws) groups =
    let shard_addr = locate w.key r in
    group_by_shard r ws
      (Dict.put shard_addr (group_of (Dict.get shard_addr groups) ++ w ∷ []) groups)

-- the inner prepare loop; it stops at the first refusal, and names the key
unfoldable pub prepare_intents :
    Env → Bytes → Bytes → List WriteIntent → List Message → List Message × Option Bytes
prepare_intents env txn_id shard [] log = (log, none)
prepare_intents env txn_id shard (w ∷ ws) log =
    let m = prepare shard w.key w.value txn_id in
    elim (env.responds log m) [
      | true ↦ prepare_intents env txn_id shard ws (log ++ m ∷ [])
      | false ↦ (log ++ m ∷ [], some w.key)
    ]

-- the outer prepare loop
unfoldable pub prepare_all :
    Env → Bytes → Dict (List WriteIntent) → List Message → List Message × Option (Bytes × Bytes)
prepare_all env txn_id [] log = (log, none)
prepare_all env txn_id ((shard, intents) ∷ rest) log =
    let (log', refused) = prepare_intents env txn_id shard intents log in
    elim refused [ none ↦ prepare_all env txn_id rest log' | some key ↦ (log', some (shard, key)) ]

-- the commit requests of one shard, and of all
unfoldable pub commit_intents : Bytes → ℕ → Bytes → List WriteIntent → List Message
commit_intents txn_id ts shard [] = []
commit_intents txn_id ts shard (w ∷ ws) =
    commit shard w.key txn_id ts ∷ commit_intents txn_id ts shard ws

unfoldable pub commit_messages : Bytes → ℕ → Dict (List WriteIntent) → List Message
commit_messages txn_id ts [] = []
commit_messages txn_id ts ((shard, intents) ∷ rest) =
    commit_intents txn_id ts shard intents ++ commit_messages txn_id ts rest

-- one phase: the single shard gets all writes in one request
unfoldable pub commit_one_phase :
    Env
    → ℕ
    → Bytes
    → Bytes
    → List WriteIntent
    → Coordinator
    → List Message
    → (Coordinator × List Message) × Result TxnError (Unit {0})
commit_one_phase env ts txn_id shard intents c log =
    let m = oneshot shard intents txn_id ts in
    if env.responds log m
    then ((set_state txn_id committed c, log ++ m ∷ []), ok tt)
    else ((abort_txn txn_id c (log ++ m ∷ [])).0, err oneshot_failed)

-- two phases
unfoldable pub commit_two_phase :
    Env
    → ℕ
    → Bytes
    → Dict (List WriteIntent)
    → Coordinator
    → List Message
    → (Coordinator × List Message) × Result TxnError (Unit {0})
commit_two_phase env ts txn_id groups c log =
    let (log', refused) = prepare_all env txn_id (env.prepare_order groups) log in
    elim refused [
      | some (shard, key) ↦ ((abort_txn txn_id c log').0, err (prepare_failed shard key))
      | none ↦ (
        (set_state txn_id committed c, log' ++ commit_messages txn_id ts (env.commit_order groups)),
        ok tt,
      )
    ]

unfoldable pub commit_groups :
    Env
    → ℕ
    → Bytes
    → Dict (List WriteIntent)
    → Coordinator
    → List Message
    → (Coordinator × List Message) × Result TxnError (Unit {0})
commit_groups env ts txn_id ((shard, intents) ∷ []) c log =
    commit_one_phase env ts txn_id shard intents c log
commit_groups env ts txn_id groups c log = commit_two_phase env ts txn_id groups c log

-- Commit up to the release of the lock: the check, and the copy of the writes
unfoldable pub commit_start : Bytes → Coordinator → Result TxnError (List WriteIntent)
commit_start txn_id c = elim (Dict.get txn_id c.transactions) [
  | none ↦ err not_active
  | some txn ↦ elim txn.state [
    | active ↦ ok txn.writes
    | committed ↦ err not_active
    | aborted ↦ err not_active
  ]
]

-- Commit from there on, with the copy of the writes and the coordinator as it is when the lock is taken
-- again, for the state or in Abort: in between other calls can take the lock. `ts` is the reading of
-- the clock that the branch makes.
unfoldable pub commit_rest :
    Env
    → ℕ
    → Bytes
    → List WriteIntent
    → Coordinator
    → List Message
    → (Coordinator × List Message) × Result TxnError (Unit {0})
commit_rest env ts txn_id [] c log = ((c, log), ok tt)
commit_rest env ts txn_id (w ∷ ws) c log =
    commit_groups env ts txn_id (group_by_shard c.router (w ∷ ws) []) c log

-- Commit, where no other call takes the lock in between
unfoldable pub commit_txn :
    Env
    → ℕ
    → Bytes
    → Coordinator
    → List Message
    → (Coordinator × List Message) × Result TxnError (Unit {0})
unfolding commit_start commit_rest
commit_txn env ts txn_id c log = elim (commit_start txn_id c) [
  | err e ↦ ((c, log), err e)
  | ok writes ↦ commit_rest env ts txn_id writes c log
]
