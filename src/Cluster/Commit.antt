-- ===== src/Cluster/Commit.antt =====
-- A transaction that commits, from the coordinator of internal/txn/coordinator.go to the stores of
-- the shards.
use mathlib.Core.Path.{ap₂, subst}
use shard_db.Base.{
  is_some, ℕ, ◌≡◌, sym, ap, ◌∙◌, true, Option, some, List, [], ◌++◌, All, All-append, All-imp,
  arith, leb, length, append-nil,
}
use shard_db.Base.Result.{Result, ok}
use shard_db.Bytes.{Bytes}
use shard_db.Dict
use shard_db.Dict.{Dict}
use shard_db.Store.Items.{IsMvcc}
use shard_db.Store.Abstract.View.{view}
use shard_db.Tree.{BTree}
use shard_db.Txn.{
  Coordinator, Transaction, WriteIntent, Env, Message, TxnError, active, commit_txn,
  commit_messages, group_by_shard,
}
use shard_db.Txn.Phases.{prepares}
use shard_db.Txn.Group.{writes_at}
use shard_db.Txn.Commit.{Decision, decided_commit, decided_abort, commit_txn-Decision}
use shard_db.Cluster.{Cluster, Wire, deliver_all}
use shard_db.Cluster.Act.{
  IsPlainMessage, IsPrepare, IsCommit, deliver_all-told, named, last_prepared,
}
use shard_db.Cluster.Groups.{
  last_value, intents_at, last_prepared-prepares, named-commit_messages, intents_at-group_by_shard,
}
use shard_db.Cluster.Sent.{
  those, is_prepare, is_commit, SameMessages, those-every, those-none, those-append, All-those,
  All-within, kind_prepare, kind_commit, prepares-IsPrepare, commit_messages-IsCommit,
  named-SameMessages,
}
use shard_db.Cluster.Outcome.{IsRange, Unlocked, Written, told-committed}

module _ (env : Env) (ts : ℕ) (txn_id : Bytes) (txn : Transaction) (c : Coordinator) where
  abbrev pub groups : Dict (List WriteIntent)
  groups = group_by_shard c.router txn.writes []

  -- The requests that Commit sends.
  abbrev pub log : List Message
  log = (commit_txn env ts txn_id c []).0.1

  abbrev pub result : Result TxnError (Unit {0})
  result = (commit_txn env ts txn_id c []).1

  -- What the transaction writes last to the key at the address.
  abbrev pub value_at : Bytes → Bytes → Option Bytes
  value_at addr key = last_value key (writes_at c.router addr txn.writes)

  pub value_at-IsRange :
      (order : Dict (List WriteIntent)) (addr key : Bytes)
      → IsRange order groups
      → last_value key (intents_at addr order) ≡ value_at addr key
  value_at-IsRange order addr key h =
      ap (last_value key) (h addr ∙ intents_at-group_by_shard c.router addr txn.writes)

  -- The log of a transaction that commits.
  committed_log :
      Decision env ts txn_id txn groups c [] (commit_txn env ts txn_id c [])
      → result ≡ ok tt
      → log
        ≡ prepares txn_id (env.prepare_order groups)
          ++ commit_messages txn_id ts (env.commit_order groups)
  committed_log (decided_commit accepted e) success = ap (λ r. r.0.1) e
  committed_log (decided_abort after shard key refusal named e) success = ground arith

  kinds_committed :
      (order : Dict (List WriteIntent)) (sent : Dict (List WriteIntent))
      → (those is_prepare (prepares txn_id order ++ commit_messages txn_id ts sent)
          ≡ prepares txn_id order)
        × (those is_commit (prepares txn_id order ++ commit_messages txn_id ts sent)
            ≡ commit_messages txn_id ts sent)
  kinds_committed order sent =
      let ps = prepares txn_id order in
      let cs = commit_messages txn_id ts sent in
      let kind_p = prepares-IsPrepare txn_id order in
      let kind_c = commit_messages-IsCommit txn_id ts sent in
      (
        those-append is_prepare ps cs
            ∙ ap₂ (λ (x y : List Message). x ++ y)
                (those-every is_prepare ps (All-imp (λ m h. (kind_prepare txn_id m h).0) ps kind_p))
                (those-none is_prepare cs
                  (All-imp (λ m h. (kind_commit txn_id ts m h).0) cs kind_c))
            ∙ append-nil ps,
        those-append is_commit ps cs
            ∙ ap₂ (λ (x y : List Message). x ++ y)
                (those-none is_commit ps (All-imp (λ m h. (kind_prepare txn_id m h).1) ps kind_p))
                (those-every is_commit cs
                  (All-imp (λ m h. (kind_commit txn_id ts m h).1) cs kind_c)),
      )

  -- When Commit of an active transaction whose writes lie on two shards or more succeeds, and its
  -- requests have no field with a space and are applied by the well-formed stores of all shards,
  -- the prepare requests as they were sent and the commit requests behind them in any order and
  -- any number of times: at every address, a key that another transaction held keeps its versions
  -- and its lock, and the write is lost; any other key has, at the commit's timestamp, the last
  -- value that the transaction writes to it there, no lock if there is such a value, and else its
  -- old versions and its old lock.
  pub commit_txn-Written :
      {B : BTree} (wire : Wire) (cluster : Cluster B) (arrived : List Message) (addr key : Bytes)
      → Dict.get txn_id c.transactions ≡ some txn
      → txn.state ≡ active
      → leb 2 (length groups) ≡ true
      → result ≡ ok tt
      → IsRange (env.prepare_order groups) groups
      → IsRange (env.commit_order groups) groups
      → SameMessages arrived (those is_commit log)
      → All IsPlainMessage log
      → ((a : Bytes) → IsMvcc (B.items (cluster a).tree))
      → let before = view (cluster addr) in
        let after = view (deliver_all wire (those is_prepare log ++ arrived) cluster addr) in
        Unlocked txn_id key (value_at addr key) before after
        × Written txn_id ts key (value_at addr key) before after
  commit_txn-Written {B} wire cluster arrived addr key known is_active two success po co same plain
        w =
      let d = commit_txn-Decision env ts txn_id txn c [] known is_active two in
      let order = env.prepare_order groups in
      let sent = commit_messages txn_id ts (env.commit_order groups) in
      let (first, second) = kinds_committed order (env.commit_order groups) in
      let whole = committed_log d success in
      let prepared : those is_prepare log ≡ prepares txn_id order =
        ap (those is_prepare) whole ∙ first in
      let commits : those is_commit log ≡ sent = ap (those is_commit) whole ∙ second in
      let arrived_in : SameMessages arrived sent = subst (SameMessages arrived) commits same in
      let names : named addr key arrived ≡ is_some (value_at addr key) =
        named-SameMessages addr key arrived sent arrived_in
        ∙ named-commit_messages addr key txn_id ts (env.commit_order groups)
        ∙ ap is_some (value_at-IsRange (env.commit_order groups) addr key co) in
      let last : last_prepared addr key (those is_prepare log) ≡ value_at addr key =
        ap (last_prepared addr key) prepared
        ∙ last_prepared-prepares addr key txn_id order
        ∙ value_at-IsRange order addr key po in
      let kinds : All (IsPrepare txn_id) (those is_prepare log) =
        subst (All (IsPrepare txn_id)) (sym prepared) (prepares-IsPrepare txn_id order) in
      let delivered =
        deliver_all-told wire (those is_prepare log ++ arrived) cluster addr
          (All-append IsPlainMessage (those is_prepare log) arrived
            (All-those IsPlainMessage is_prepare log plain)
            (All-within IsPlainMessage arrived (those is_commit log) same.0
              (All-those IsPlainMessage is_commit log plain)))
          w in
      subst
        (λ b.
          Unlocked txn_id key (value_at addr key) (view (cluster addr)) b
          × Written txn_id ts key (value_at addr key) (view (cluster addr)) b)
        (sym delivered)
        (told-committed addr key txn_id (value_at addr key) (those is_prepare log) arrived
          (view (cluster addr)) last kinds ts names
          (All-within (IsCommit txn_id ts) arrived sent arrived_in.0
            (commit_messages-IsCommit txn_id ts (env.commit_order groups))))
