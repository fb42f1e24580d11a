-- ===== src/Txn/State.antt =====
-- The state that Commit leaves a transaction in.
use mathlib.Core.Path.{subst}
use shard_db.Base.{
  ℕ, ◌≡◌, refl, sym, ap, ◌∙◌, true, false, none, some, List, [], ◌∷◌, ◌++◌, arith, inl, inr, ◌⊎◌,
  if◌then◌else◌,
}
use shard_db.Base.Result.{Result, ok, err}
use shard_db.Bytes.{Bytes}
use shard_db.Bytes.Order.{equal_refl}
use shard_db.Dict
use shard_db.Dict.{Dict}
use shard_db.Txn.{
  TxnState, Coordinator, Transaction, WriteIntent, Env, Message, TxnError, prepare_failed,
  oneshot_failed, active, committed, aborted, prepare_all, commit_messages, commit_two_phase,
  commit_one_phase, commit_groups, commit_txn, abort_messages, abort_txn, set_state, group_by_shard,
}
use shard_db.Txn.Requests.{aborts, abort_messages-aborts}
use shard_db.Txn.Commit.{Outcome, commit-active}

pub get-set_state :
    (txn_id : Bytes) (state : TxnState) (txn : Transaction) (c : Coordinator)
    → Dict.get txn_id c.transactions ≡ some txn
    → Dict.get txn_id (set_state txn_id state c).transactions ≡ some (record txn { state = state })
unfolding set_state
get-set_state txn_id state txn c known = ground (
  arith,
  equal_refl txn_id,
  Dict.get-put txn_id txn_id (record txn { state = state }) c.transactions,
)

-- The state agrees with the answer.
abbrev pub Decided : Bytes → Transaction → Outcome → Type 0
Decided txn_id txn r =
    ((r.1 ≡ ok tt) × (Dict.get txn_id r.0.0.transactions ≡ some (record txn { state = committed })))
    ⊎ ((e : TxnError) × (r.1 ≡ err e)
        × (Dict.get txn_id r.0.0.transactions ≡ some (record txn { state = aborted })))

set_state-Decided :
    (txn_id : Bytes) (txn : Transaction) (c : Coordinator) (log : List Message)
    → Dict.get txn_id c.transactions ≡ some txn
    → Decided txn_id txn ((set_state txn_id committed c, log), ok tt)
set_state-Decided txn_id txn c log known = inl (refl, get-set_state txn_id committed txn c known)

abort_txn-state :
    (txn_id : Bytes) (txn : Transaction) (c : Coordinator) (log : List Message)
    → Dict.get txn_id c.transactions ≡ some txn
    → Dict.get txn_id (abort_txn txn_id c log).0.0.transactions
      ≡ some (record txn { state = aborted })
unfolding abort_txn
abort_txn-state txn_id txn c log known = ground (arith, get-set_state txn_id aborted txn c known)

abort_txn-Decided :
    (txn_id : Bytes) (txn : Transaction) (c : Coordinator) (log : List Message) (e : TxnError)
    → Dict.get txn_id c.transactions ≡ some txn
    → Decided txn_id txn ((abort_txn txn_id c log).0, err e)
abort_txn-Decided txn_id txn c log e known = inr (e, refl, abort_txn-state txn_id txn c log known)

one_phase-Decided :
    (env : Env) (ts : ℕ) (txn_id shard : Bytes) (ws : List WriteIntent) (txn : Transaction)
    (c : Coordinator) (log : List Message)
    → Dict.get txn_id c.transactions ≡ some txn
    → Decided txn_id txn (commit_one_phase env ts txn_id shard ws c log)
unfolding commit_one_phase
one_phase-Decided env ts txn_id shard ws txn c log known =
    let m = Message.oneshot shard ws txn_id ts in
    elim (env.responds log m)
      as (λ b. Decided txn_id txn (
        if b
        then ((set_state txn_id committed c, log ++ m ∷ []), ok tt)
        else ((abort_txn txn_id c (log ++ m ∷ [])).0, err oneshot_failed))) [
          | true ↦ set_state-Decided txn_id txn c (log ++ m ∷ []) known
          | false ↦ abort_txn-Decided txn_id txn c (log ++ m ∷ []) oneshot_failed known
        ]

two_phase-Decided :
    (env : Env) (ts : ℕ) (txn_id : Bytes) (groups : Dict (List WriteIntent)) (txn : Transaction)
    (c : Coordinator) (log : List Message)
    → Dict.get txn_id c.transactions ≡ some txn
    → Decided txn_id txn (commit_two_phase env ts txn_id groups c log)
unfolding commit_two_phase
two_phase-Decided env ts txn_id groups txn c log known =
    let r = prepare_all env txn_id (env.prepare_order groups) log in
    elim r.1
      as (λ refused. Decided txn_id txn (elim refused [
        | some (shard, key) ↦ ((abort_txn txn_id c r.0).0, err (prepare_failed shard key))
        | none ↦ (
          (
            set_state txn_id committed c,
            r.0 ++ commit_messages txn_id ts (env.commit_order groups),
          ),
          ok tt,
        )
      ])) [
        | none ↦
            set_state-Decided txn_id txn c
              (r.0 ++ commit_messages txn_id ts (env.commit_order groups)) known
        | some (shard, key) ↦ abort_txn-Decided txn_id txn c r.0 (prepare_failed shard key) known
      ]

pub groups-Decided :
    (env : Env) (ts : ℕ) (txn_id : Bytes) (groups : Dict (List WriteIntent)) (txn : Transaction)
    (c : Coordinator) (log : List Message)
    → Dict.get txn_id c.transactions ≡ some txn
    → Decided txn_id txn (commit_groups env ts txn_id groups c log)
unfolding commit_groups
groups-Decided env ts txn_id [] txn c log known = two_phase-Decided env ts txn_id [] txn c log known
groups-Decided env ts txn_id ((shard, intents) ∷ []) txn c log known =
    one_phase-Decided env ts txn_id shard intents txn c log known
groups-Decided env ts txn_id ((shard, intents) ∷ (g ∷ rest)) txn c log known =
    two_phase-Decided env ts txn_id ((shard, intents) ∷ (g ∷ rest)) txn c log known

commit_txn-Decided :
    (env : Env) (ts : ℕ) (txn_id : Bytes) (txn : Transaction) (w : WriteIntent)
    (ws : List WriteIntent) (c : Coordinator) (log : List Message)
    → Dict.get txn_id c.transactions ≡ some txn
    → txn.state ≡ active
    → txn.writes ≡ w ∷ ws
    → Decided txn_id txn (commit_txn env ts txn_id c log)
commit_txn-Decided env ts txn_id txn w ws c log known is_active has =
    subst (Decided txn_id txn)
      (sym (commit-active env ts txn_id txn w ws c log known is_active has))
      (groups-Decided env ts txn_id (group_by_shard c.router txn.writes []) txn c log known)

abort-known :
    (txn_id : Bytes) (txn : Transaction) (c : Coordinator) (log : List Message)
    → Dict.get txn_id c.transactions ≡ some txn
    → abort_txn txn_id c log
      ≡ ((set_state txn_id aborted c, log ++ abort_messages c.router txn_id txn.writes), ok tt)
unfolding abort_txn
abort-known txn_id txn c log known = ground arith

pub set_state-router :
    (txn_id : Bytes) (state : TxnState) (c : Coordinator)
    → (set_state txn_id state c).router ≡ c.router
unfolding set_state
set_state-router txn_id state c = ground arith

no_failure : (r : Result TxnError (Unit {0})) (e : TxnError) → r ≡ ok tt → r ≡ err e → ⊥
no_failure r e success failure = ground arith

-- Abort does not look at the state: after a Commit that succeeded, Abort succeeds too, the
-- transaction is then aborted, and an abort request has been sent for each of its writes, in order,
-- to the address of its key.
pub abort_txn-commit_txn :
    (env : Env) (ts : ℕ) (txn_id : Bytes) (txn : Transaction) (w : WriteIntent)
    (ws : List WriteIntent) (c : Coordinator) (log later : List Message)
    → Dict.get txn_id c.transactions ≡ some txn
    → txn.state ≡ active
    → txn.writes ≡ w ∷ ws
    → (commit_txn env ts txn_id c log).1 ≡ ok tt
    → let c' = (commit_txn env ts txn_id c log).0.0 in
      let r = abort_txn txn_id c' later in
      (r.1 ≡ ok tt)
      × (Dict.get txn_id r.0.0.transactions ≡ some (record txn { state = aborted }))
      × (r.0.1 ≡ later ++ aborts c'.router txn_id txn.writes)
abort_txn-commit_txn env ts txn_id txn w ws c log later known is_active has success =
    let c' = (commit_txn env ts txn_id c log).0.0 in
    elim (commit_txn-Decided env ts txn_id txn w ws c log known is_active has) [
      | inr (e, failure, state) ↦
          absurd (no_failure (commit_txn env ts txn_id c log).1 e success failure)
      | inl (answer, state) ↦
          let e = abort-known txn_id (record txn { state = committed }) c' later state in
          (
            ap (λ r. r.1) e,
            abort_txn-state txn_id (record txn { state = committed }) c' later state,
            ap (λ r. r.0.1) e
                ∙ ap (λ ms. later ++ ms) (abort_messages-aborts c'.router txn_id txn.writes),
          )
    ]
