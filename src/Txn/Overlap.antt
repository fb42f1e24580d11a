-- ===== src/Txn/Overlap.antt =====
-- Commit of internal/txn/coordinator.go does not hold the mutex while it sends: what other calls for the
-- same transaction do in between.
use shard_db.Base.{
  ℕ, ◌≡◌, refl, ap, ◌∙◌, some, List, [], ◌∷◌, ◌++◌, arith, inl, inr, Bool-cases, Option-cases,
}
use shard_db.Base.Result.{Result, ok, err}
use shard_db.Bytes.{Bytes}
use shard_db.Bytes.Order.{equal_refl}
use shard_db.Dict
use shard_db.Dict.{Dict}
use shard_db.Txn.{
  Coordinator, Transaction, WriteIntent, Env, Message, TxnError, not_active, active, committed,
  prepare_all, oneshot, commit_two_phase, commit_one_phase, commit_groups, commit_start,
  commit_rest, add_write, group_by_shard,
}
use shard_db.Txn.State.{Decided, groups-Decided}

add_write-known :
    (txn_id key value : Bytes) (txn : Transaction) (w : WriteIntent) (ws : List WriteIntent)
    (c : Coordinator)
    → Dict.get txn_id c.transactions ≡ some txn
    → txn.state ≡ active
    → txn.writes ≡ w ∷ ws
    → let (c', r) = add_write txn_id key value c in
      (r ≡ ok tt)
      × (c'.router ≡ c.router)
      × (Dict.get txn_id c'.transactions
          ≡ some (record txn { writes = (w ∷ ws) ++ record { key = key; value = value } ∷ [] }))
unfolding add_write
add_write-known txn_id key value txn w ws c known is_active has =
    let new = record txn { writes = txn.writes ++ record { key = key; value = value } ∷ [] } in
    (
      ground arith,
      ground arith,
      ground (arith, equal_refl txn_id, Dict.get-put txn_id txn_id new c.transactions, has),
    )

commit_start-active :
    (txn_id : Bytes) (txn : Transaction) (c : Coordinator)
    → Dict.get txn_id c.transactions ≡ some txn
    → txn.state ≡ active
    → commit_start txn_id c ≡ ok txn.writes
unfolding commit_start
commit_start-active txn_id txn c known is_active = ground arith

-- A transaction that is committed takes no write and no Commit.
closed :
    (txn_id key value : Bytes) (txn : Transaction) (c : Coordinator)
    → Dict.get txn_id c.transactions ≡ some txn
    → txn.state ≡ committed
    → (commit_start txn_id c ≡ err not_active)
      × (add_write txn_id key value c ≡ (c, err not_active))
unfolding commit_start add_write
closed txn_id key value txn c known is = (ground arith, ground arith)

-- The requests of phases that succeed do not depend on the transactions of the coordinator.
one_phase-sent :
    (env : Env) (ts : ℕ) (txn_id shard : Bytes) (ws : List WriteIntent) (c d : Coordinator)
    (log : List Message)
    → (commit_one_phase env ts txn_id shard ws c log).1 ≡ ok tt
    → (commit_one_phase env ts txn_id shard ws c log).0.1
      ≡ (commit_one_phase env ts txn_id shard ws d log).0.1
unfolding commit_one_phase
one_phase-sent env ts txn_id shard ws c d log success =
    elim (Bool-cases (env.responds log (oneshot shard ws txn_id ts))) [
      | inl accepted ↦ ground arith
      | inr refused ↦ absurd (ground arith)
    ]

two_phase-sent :
    (env : Env) (ts : ℕ) (txn_id : Bytes) (groups : Dict (List WriteIntent)) (c d : Coordinator)
    (log : List Message)
    → (commit_two_phase env ts txn_id groups c log).1 ≡ ok tt
    → (commit_two_phase env ts txn_id groups c log).0.1
      ≡ (commit_two_phase env ts txn_id groups d log).0.1
unfolding commit_two_phase
two_phase-sent env ts txn_id groups c d log success =
    elim (Option-cases (prepare_all env txn_id (env.prepare_order groups) log).1) [
      | inl accepted ↦ ground arith
      | inr (refused, e) ↦ absurd (ground arith)
    ]

groups-sent :
    (env : Env) (ts : ℕ) (txn_id : Bytes) (groups : Dict (List WriteIntent)) (c d : Coordinator)
    (log : List Message)
    → (commit_groups env ts txn_id groups c log).1 ≡ ok tt
    → (commit_groups env ts txn_id groups c log).0.1
      ≡ (commit_groups env ts txn_id groups d log).0.1
unfolding commit_groups
groups-sent env ts txn_id [] c d log success = two_phase-sent env ts txn_id [] c d log success
groups-sent env ts txn_id ((shard, ws) ∷ []) c d log success =
    one_phase-sent env ts txn_id shard ws c d log success
groups-sent env ts txn_id ((shard, ws) ∷ (g ∷ rest)) c d log success =
    two_phase-sent env ts txn_id ((shard, ws) ∷ (g ∷ rest)) c d log success

committed_of :
    (txn_id : Bytes) (txn : Transaction)
    (r : (Coordinator × List Message) × Result TxnError (Unit {0}))
    → r.1 ≡ ok tt
    → Decided txn_id txn r
    → Dict.get txn_id r.0.0.transactions ≡ some (record txn { state = committed })
committed_of txn_id txn r success (inl (answer, state)) = state
committed_of txn_id txn r success (inr (e, failure, state)) = absurd (ground arith)

-- A first Commit of an active transaction with writes has copied them and released the mutex. An
-- AddWrite that comes now succeeds, and a second Commit passes the check too. When the first then
-- goes on and succeeds, it has sent the requests that it would have sent without the AddWrite, so
-- the late write is not among them, and the transaction is committed with the late write in its
-- list; from now on a Commit and an AddWrite are refused. But the second Commit goes on as well and
-- decides the transaction again, by its own requests: committed where it succeeds, and aborted
-- where it fails, though the first has succeeded.
pub commit_start-commit_rest :
    (env : Env) (ts ts' : ℕ) (txn_id key value : Bytes) (txn : Transaction) (w : WriteIntent)
    (ws : List WriteIntent) (c : Coordinator) (log : List Message)
    → let (c', added) = add_write txn_id key value c in
      let first = commit_rest env ts txn_id (w ∷ ws) c' log in
      let writes = (w ∷ ws) ++ record { key = key; value = value } ∷ [] in
      Dict.get txn_id c.transactions ≡ some txn
      → txn.state ≡ active
      → txn.writes ≡ w ∷ ws
      → first.1 ≡ ok tt
      → (commit_start txn_id c ≡ ok (w ∷ ws))
        × (added ≡ ok tt)
        × (commit_start txn_id c' ≡ ok writes)
        × (first.0.1 ≡ (commit_rest env ts txn_id (w ∷ ws) c log).0.1)
        × (Dict.get txn_id first.0.0.transactions
            ≡ some (record txn { state = committed; writes = writes }))
        × ((commit_start txn_id first.0.0 ≡ err not_active)
            × (add_write txn_id key value first.0.0 ≡ (first.0.0, err not_active)))
        × Decided txn_id
            (record txn { state = committed; writes = writes })
            (commit_rest env ts' txn_id writes first.0.0 first.0.1)
unfolding commit_rest
commit_start-commit_rest env ts ts' txn_id key value txn w ws c log known is_active has success =
    let (c', _) = add_write txn_id key value c in
    let writes = (w ∷ ws) ++ record { key = key; value = value } ∷ [] in
    let wider : Transaction = record txn { writes = writes } in
    let done : Transaction = record txn { state = committed; writes = writes } in
    let (added, router, wrote) = add_write-known txn_id key value txn w ws c known is_active has in
    let groups = group_by_shard c'.router (w ∷ ws) [] in
    let first = commit_groups env ts txn_id groups c' log in
    let state =
      committed_of txn_id wider first success
        (groups-Decided env ts txn_id groups wider c' log wrote) in
    (
      commit_start-active txn_id txn c known is_active ∙ ap ok has,
      added,
      commit_start-active txn_id wider c' wrote is_active,
      groups-sent env ts txn_id groups c' c log success
          ∙ ap (λ r. (commit_groups env ts txn_id (group_by_shard r (w ∷ ws) []) c log).0.1) router,
      state,
      closed txn_id key value done first.0.0 state refl,
      groups-Decided env ts' txn_id (group_by_shard first.0.0.router writes []) done first.0.0
          first.0.1 state,
    )
