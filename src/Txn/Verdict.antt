-- ===== src/Txn/Verdict.antt =====
-- The two outcomes of Commit with two phases: the requests, the answer and the state of the
-- transactions.
use mathlib.Core.Path.{subst}
use shard_db.Base.{ℕ, ◌≡◌, sym, ap, ◌∙◌, true, false, some, List, [], ◌++◌, arith, length, leb}
use shard_db.Base.Result.{ok, err}
use shard_db.Bytes.{Bytes, bytes_equal}
use shard_db.Dict
use shard_db.Dict.{Dict}
use shard_db.Txn.{
  TxnState, Coordinator, Transaction, WriteIntent, Env, Message, prepare_failed, active, committed,
  aborted, commit_txn, set_state, group_by_shard,
}
use shard_db.Txn.Commit.{Outcome, Decision, decided_commit, decided_abort, commit_txn-Decision}
use shard_db.Txn.Phases.{IsPrepareOf, Accepted, Refusal, prepares}
use shard_db.Txn.Requests.{commits, aborts, commit_messages-commits, abort_messages-aborts}
use shard_db.Txn.State.{get-set_state, set_state-router}

-- The transaction has the state, and nothing else has changed in the coordinator.
pub record IsLeft (txn_id : Bytes) (txn : Transaction) (c : Coordinator) (state : TxnState)
    (after : Coordinator) : Type 0 where
  pub this : Dict.get txn_id after.transactions ≡ some (record txn { state = state })
  pub others :
      (id : Bytes)
      → bytes_equal txn_id id ≡ false
      → Dict.get id after.transactions ≡ Dict.get id c.transactions
  pub router : after.router ≡ c.router

-- Either every prepare request is accepted, the commit requests follow and the transaction is
-- committed, or a prepare request is refused, none behind it is sent, the abort requests follow and
-- the transaction is aborted.
pub data Verdict (env : Env) (ts : ℕ) (txn_id : Bytes) (txn : Transaction)
    (groups : Dict (List WriteIntent)) (c : Coordinator) (log : List Message) (r : Outcome)
    : Type 0 where
  all_accepted :
      Accepted env log (prepares txn_id (env.prepare_order groups))
      → r.1 ≡ ok tt
      → r.0.1
        ≡ (log ++ prepares txn_id (env.prepare_order groups))
          ++ commits txn_id ts (env.commit_order groups)
      → IsLeft txn_id txn c committed r.0.0
      → Verdict env ts txn_id txn groups c log r
  one_refused :
      (after : List Message) (shard key : Bytes)
      (refusal : Refusal env log (prepares txn_id (env.prepare_order groups)) after)
      → IsPrepareOf txn_id (shard, key) refusal.refused
      → r.1 ≡ err (prepare_failed shard key)
      → r.0.1 ≡ after ++ aborts c.router txn_id txn.writes
      → IsLeft txn_id txn c aborted r.0.0
      → Verdict env ts txn_id txn groups c log r

other-set_state :
    (txn_id id : Bytes) (state : TxnState) (txn : Transaction) (c : Coordinator)
    → Dict.get txn_id c.transactions ≡ some txn
    → bytes_equal txn_id id ≡ false
    → Dict.get id (set_state txn_id state c).transactions ≡ Dict.get id c.transactions
unfolding set_state
other-set_state txn_id id state txn c known other =
    ground (arith, Dict.get-put txn_id id (record txn { state = state }) c.transactions)

set_state-IsLeft :
    (txn_id : Bytes) (state : TxnState) (txn : Transaction) (c : Coordinator)
    → Dict.get txn_id c.transactions ≡ some txn
    → IsLeft txn_id txn c state (set_state txn_id state c)
set_state-IsLeft txn_id state txn c known = record {
  this = get-set_state txn_id state txn c known;
  others = λ id other. other-set_state txn_id id state txn c known other;
  router = set_state-router txn_id state c;
}

Decision-Verdict :
    (env : Env) (ts : ℕ) (txn_id : Bytes) (txn : Transaction) (groups : Dict (List WriteIntent))
    (c : Coordinator) (log : List Message) (r : Outcome)
    → Dict.get txn_id c.transactions ≡ some txn
    → Decision env ts txn_id txn groups c log r
    → Verdict env ts txn_id txn groups c log r
Decision-Verdict env ts txn_id txn groups c log r known (decided_commit accepted e) =
    all_accepted accepted (ap (λ x. x.1) e)
      (ap (λ x. x.0.1) e
        ∙ ap (λ ms. (log ++ prepares txn_id (env.prepare_order groups)) ++ ms)
            (commit_messages-commits txn_id ts (env.commit_order groups)))
      (subst (IsLeft txn_id txn c committed) (sym (ap (λ x. x.0.0) e))
        (set_state-IsLeft txn_id committed txn c known))
Decision-Verdict env ts txn_id txn groups c log r known
      (decided_abort after shard key refusal named e) =
    one_refused after shard key refusal named (ap (λ x. x.1) e)
      (ap (λ x. x.0.1) e
        ∙ ap (λ ms. after ++ ms) (abort_messages-aborts c.router txn_id txn.writes))
      (subst (IsLeft txn_id txn c aborted) (sym (ap (λ x. x.0.0) e))
        (set_state-IsLeft txn_id aborted txn c known))

-- Commit of an active transaction whose writes lie on two shards or more, in any order of the
-- ranges over the shards. Either every prepare request is accepted, and then a commit request
-- follows for each write of each shard, in the order of the second range, Commit succeeds, and the
-- transaction is committed; or a prepare request is refused, no prepare request behind it and no
-- commit request is sent, an abort request follows for each write, to the shard of its key, Commit
-- fails with an error that names the shard and the key of the refused request, and the transaction is aborted. Other transactions and the router stay as they were.
pub commit_txn-Verdict :
    (env : Env) (ts : ℕ) (txn_id : Bytes) (txn : Transaction) (c : Coordinator) (log : List Message)
    → Dict.get txn_id c.transactions ≡ some txn
    → txn.state ≡ active
    → leb 2 (length (group_by_shard c.router txn.writes [])) ≡ true
    → Verdict env ts txn_id txn
        (group_by_shard c.router txn.writes [])
        c
        log
        (commit_txn env ts txn_id c log)
commit_txn-Verdict env ts txn_id txn c log known is_active two =
    Decision-Verdict env ts txn_id txn (group_by_shard c.router txn.writes []) c log
      (commit_txn env ts txn_id c log) known
      (commit_txn-Decision env ts txn_id txn c log known is_active two)
