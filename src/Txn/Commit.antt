-- ===== src/Txn/Commit.antt =====
-- The outcomes of Commit: the two phases, and what a decided transaction still answers.
use mathlib.Core.Path.{subst}
use shard_db.Base.{
  List-cases, ℕ, ◌≡◌, refl, sym, ap, ◌∙◌, true, some, List, [], ◌∷◌, ◌++◌, arith, inl, inr, length,
  leb,
}
use shard_db.Base.Result.{Result, ok, err}
use shard_db.Bytes.{Bytes}
use shard_db.Dict
use shard_db.Dict.{Dict}
use shard_db.Router.{Router}
use shard_db.Txn.{
  Coordinator, Transaction, WriteIntent, Env, Message, TxnError, prepare_failed, active, committed,
  aborted, prepare_all, commit_messages, commit_two_phase, commit_groups, commit_txn,
  abort_messages, abort_txn, set_state, group_by_shard,
}
use shard_db.Txn.Phases.{IsPrepareOf, Accepted, Refusal, prepares, prepare_all_lem}

abbrev pub Outcome : Type 0
Outcome = (Coordinator × List Message) × Result TxnError (Unit {0})

-- The two outcomes of the two-phase protocol. A commit request is sent only behind the prepare
-- requests of all shards, each accepted. Where one is refused, the requests behind it are not sent,
-- and the requests after it are the aborts of all writes.
pub data Decision (env : Env) (ts : ℕ) (txn_id : Bytes) (txn : Transaction)
    (groups : Dict (List WriteIntent)) (c : Coordinator) (log : List Message) (r : Outcome)
    : Type 0 where
  decided_commit :
      Accepted env log (prepares txn_id (env.prepare_order groups))
      → r ≡ (
        (
          set_state txn_id committed c,
          (log ++ prepares txn_id (env.prepare_order groups))
              ++ commit_messages txn_id ts (env.commit_order groups),
        ),
        ok tt,
      )
      → Decision env ts txn_id txn groups c log r
  decided_abort :
      (after : List Message) (shard key : Bytes)
      (refusal : Refusal env log (prepares txn_id (env.prepare_order groups)) after)
      → IsPrepareOf txn_id (shard, key) refusal.refused
      → r ≡ (
        (set_state txn_id aborted c, after ++ abort_messages c.router txn_id txn.writes),
        err (prepare_failed shard key),
      )
      → Decision env ts txn_id txn groups c log r

commit_two_phase_lem :
    (env : Env) (ts : ℕ) (txn_id : Bytes) (txn : Transaction) (groups : Dict (List WriteIntent))
    (c : Coordinator) (log : List Message)
    → Dict.get txn_id c.transactions ≡ some txn
    → Decision env ts txn_id txn groups c log (commit_two_phase env ts txn_id groups c log)
unfolding commit_two_phase abort_txn
commit_two_phase_lem env ts txn_id txn groups c log known =
    let r = prepare_all env txn_id (env.prepare_order groups) log in
    elim (prepare_all_lem env txn_id (env.prepare_order groups) log) [
      | inl (done, accepted, sent) ↦ decided_commit accepted (ground arith)
      | inr ((shard, key), refused, (refusal, named)) ↦
          decided_abort r.0 shard key refusal named (ground arith)
    ]

groups-two :
    (env : Env) (ts : ℕ) (txn_id : Bytes) (groups : Dict (List WriteIntent)) (c : Coordinator)
    (log : List Message)
    → leb 2 (length groups) ≡ true
    → commit_groups env ts txn_id groups c log ≡ commit_two_phase env ts txn_id groups c log
unfolding commit_groups
groups-two env ts txn_id [] c log two = ground arith
groups-two env ts txn_id ((shard, intents) ∷ []) c log two = ground arith
groups-two env ts txn_id ((shard, intents) ∷ (g ∷ rest)) c log two = refl

no_writes : (r : Router) → length (group_by_shard r [] []) ≡ 0
unfolding group_by_shard
no_writes r = refl

-- Commit of a transaction that is active and has writes.
pub commit-active :
    (env : Env) (ts : ℕ) (txn_id : Bytes) (txn : Transaction) (w : WriteIntent)
    (ws : List WriteIntent) (c : Coordinator) (log : List Message)
    → Dict.get txn_id c.transactions ≡ some txn
    → txn.state ≡ active
    → txn.writes ≡ w ∷ ws
    → commit_txn env ts txn_id c log
      ≡ commit_groups env ts txn_id (group_by_shard c.router txn.writes []) c log
unfolding commit_txn
commit-active env ts txn_id txn w ws c log known is_active has = ground arith

-- Commit of an active transaction whose writes lie on two shards or more, in any order of the
-- ranges over the shards: either every prepare request is accepted, and then the commit requests
-- of all shards follow and the transaction is committed, or no commit request is sent, nothing
-- behind the first refused prepare request is prepared, every write is aborted, and Commit fails.
pub commit_txn-Decision :
    (env : Env) (ts : ℕ) (txn_id : Bytes) (txn : Transaction) (c : Coordinator) (log : List Message)
    → Dict.get txn_id c.transactions ≡ some txn
    → txn.state ≡ active
    → leb 2 (length (group_by_shard c.router txn.writes [])) ≡ true
    → Decision env ts txn_id txn
        (group_by_shard c.router txn.writes [])
        c
        log
        (commit_txn env ts txn_id c log)
commit_txn-Decision env ts txn_id txn c log known is_active two =
    let groups = group_by_shard c.router txn.writes [] in
    elim (List-cases txn.writes) [
      | inl empty ↦
          let none_left : length groups ≡ 0 =
            ap (λ ws. length (group_by_shard c.router ws [])) empty ∙ no_writes c.router in
          ground arith
      | inr (w, ws, has) ↦
          subst (Decision env ts txn_id txn groups c log)
            (sym (
              commit-active env ts txn_id txn w ws c log known is_active has
              ∙ groups-two env ts txn_id groups c log two))
            (commit_two_phase_lem env ts txn_id txn groups c log known)
    ]
