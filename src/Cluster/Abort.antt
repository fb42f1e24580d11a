-- ===== src/Cluster/Abort.antt =====
-- A transaction that Commit of internal/txn/coordinator.go gives up, in the stores of the shards.
use mathlib.Core.Path.{ap₂, subst}
use shard_db.Base.{
  is_some, ℕ, ◌≡◌, refl, sym, ap, ◌∙◌, true, some, List, [], ◌∷◌, ◌++◌, All, All-append, All-imp,
  Has, arith, leb, length, append-nil,
}
use shard_db.Base.Result.{err}
use shard_db.Bytes.{Bytes}
use shard_db.Dict
use shard_db.Dict.{Dict}
use shard_db.Store.Items.{IsMvcc}
use shard_db.Store.Abstract.View.{view}
use shard_db.Tree.{BTree}
use shard_db.Txn.{
  Coordinator, Transaction, WriteIntent, Env, Message, TxnError, active, commit_txn, abort_messages,
}
use shard_db.Txn.Phases.{prepares}
use shard_db.Txn.Commit.{Decision, decided_commit, decided_abort, commit_txn-Decision}
use shard_db.Cluster.{Cluster, Wire, deliver_all}
use shard_db.Cluster.Act.{
  IsPlainMessage, IsPrepare, IsAbort, deliver_all-told, named, last_prepared,
}
use shard_db.Cluster.Groups.{last_prepared-prepares, named-append, named-abort_messages}
use shard_db.Cluster.Sent.{
  those, is_prepare, is_abort, SameMessages, those-every, those-none, those-append, All-those,
  All-within, kind_prepare, kind_abort, prepares-IsPrepare, abort_messages-IsAbort,
  named-SameMessages, named_within, is_some-last_prepared,
}
use shard_db.Cluster.Outcome.{IsRange, Unlocked, told-aborted}
use shard_db.Cluster.Commit.{groups, log, result, value_at, value_at-IsRange}

-- A list up to one of its members.
All-up_to :
    (P : Message → Type 0) (before unsent : List Message) (m : Message)
    → All P (before ++ m ∷ unsent)
    → All P (before ++ m ∷ [])
All-up_to P [] unsent m h = (h.0, tt)
All-up_to P (x ∷ before) unsent m h = (h.0, All-up_to P before unsent m h.1)

named_up_to :
    (addr key : Bytes) (before unsent : List Message) (m : Message)
    → named addr key (before ++ m ∷ []) ≡ true
    → named addr key (before ++ m ∷ unsent) ≡ true
named_up_to addr key before unsent m h =
    ground (arith, named-append addr key before (m ∷ []), named-append addr key before (m ∷ unsent))

module _ (env : Env) (ts : ℕ) (txn_id : Bytes) (txn : Transaction) (c : Coordinator) where
  abbrev order : Dict (List WriteIntent)
  order = env.prepare_order (groups env ts txn_id txn c)

  abbrev aborts : List Message
  aborts = abort_messages c.router txn_id txn.writes

  -- What the log of a failed Commit holds: some of the prepare requests, and the aborts of all writes.
  record GivenUp : Type 0 where
    asked : List Message
    prepares_sent : those is_prepare (log env ts txn_id txn c) ≡ asked
    aborts_sent : those is_abort (log env ts txn_id txn c) ≡ aborts
    asked-IsPrepare : All (IsPrepare txn_id) asked
    asked_named :
        (addr key : Bytes)
        → named addr key asked ≡ true
        → named addr key (prepares txn_id order) ≡ true

  kinds_aborted :
      (asked : List Message)
      → All (IsPrepare txn_id) asked
      → (those is_prepare (asked ++ aborts) ≡ asked) × (those is_abort (asked ++ aborts) ≡ aborts)
  kinds_aborted asked kind_p =
      let kind_a = abort_messages-IsAbort c.router txn_id txn.writes in
      (
        those-append is_prepare asked aborts
            ∙ ap₂ (λ (x y : List Message). x ++ y)
                (those-every is_prepare asked
                  (All-imp (λ m h. (kind_prepare txn_id m h).0) asked kind_p))
                (those-none is_prepare aborts
                  (All-imp (λ m h. (kind_abort txn_id m h).0) aborts kind_a))
            ∙ append-nil asked,
        those-append is_abort asked aborts
            ∙ ap₂ (λ (x y : List Message). x ++ y)
                (those-none is_abort asked
                  (All-imp (λ m h. (kind_prepare txn_id m h).2) asked kind_p))
                (those-every is_abort aborts
                  (All-imp (λ m h. (kind_abort txn_id m h).1) aborts kind_a)),
      )

  given_up :
      (e : TxnError)
      → Decision env ts txn_id txn (groups env ts txn_id txn c) c [] (commit_txn env ts txn_id c [])
      → result env ts txn_id txn c ≡ err e
      → GivenUp
  given_up e (decided_commit accepted r) failure = absurd (ground arith)
  given_up e (decided_abort after shard key refusal called r) failure =
      let asked = refusal.before ++ refusal.refused ∷ [] in
      let kind_p : All (IsPrepare txn_id) asked =
        All-up_to (IsPrepare txn_id) refusal.before refusal.unsent refusal.refused
          (subst (All (IsPrepare txn_id)) refusal.planned (prepares-IsPrepare txn_id order)) in
      let whole : log env ts txn_id txn c ≡ asked ++ aborts =
        ap (λ q. q.0.1) r ∙ ap (λ ms. ms ++ aborts) refusal.sent in
      let (first, second) = kinds_aborted asked kind_p in
      record {
        asked = asked;
        prepares_sent = ap (those is_prepare) whole ∙ first;
        aborts_sent = ap (those is_abort) whole ∙ second;
        asked-IsPrepare = kind_p;
        asked_named = λ addr key h.
            ap (named addr key) refusal.planned
            ∙ named_up_to addr key refusal.before refusal.unsent refusal.refused h;
      }

  -- When Commit of an active transaction whose writes lie on two shards or more fails, and its
  -- requests have no field with a space, and the well-formed stores of all shards apply any of its
  -- prepare requests, in any order and any number of times, and behind them the abort requests, in
  -- any order and any number of times: no key has other versions than before at any address, no
  -- lock of the transaction is left on the keys that it writes, and other locks stay.
  pub commit_txn-Unlocked :
      {B : BTree} (wire : Wire) (cluster : Cluster B) (reached arrived : List Message)
      (addr key : Bytes) (e : TxnError)
      → Dict.get txn_id c.transactions ≡ some txn
      → txn.state ≡ active
      → leb 2 (length (groups env ts txn_id txn c)) ≡ true
      → result env ts txn_id txn c ≡ err e
      → IsRange order (groups env ts txn_id txn c)
      → All (λ m. Has m (those is_prepare (log env ts txn_id txn c))) reached
      → SameMessages arrived (those is_abort (log env ts txn_id txn c))
      → All IsPlainMessage (log env ts txn_id txn c)
      → ((a : Bytes) → IsMvcc (B.items (cluster a).tree))
      → let before = view (cluster addr) in
        let after = view (deliver_all wire (reached ++ arrived) cluster addr) in
        Unlocked txn_id key (value_at env ts txn_id txn c addr key) before after
        × (after.at ≡ before.at)
  commit_txn-Unlocked {B} wire cluster reached arrived addr key e known is_active two failure po
        some_of same plain w =
      let d = commit_txn-Decision env ts txn_id txn c [] known is_active two in
      let g = given_up e d failure in
      let value = value_at env ts txn_id txn c addr key in
      let in_asked : All (λ m. Has m g.asked) reached =
        subst (λ ms. All (λ m. Has m ms) reached) g.prepares_sent some_of in
      let in_aborts : SameMessages arrived aborts =
        subst (SameMessages arrived) g.aborts_sent same in
      let names : named addr key arrived ≡ is_some value =
        named-SameMessages addr key arrived aborts in_aborts
        ∙ named-abort_messages addr key c.router txn_id txn.writes in
      let within : is_some (last_prepared addr key reached) ≡ true → is_some value ≡ true = λ h.
        let asked_for = g.asked_named addr key (
          named_within addr key reached g.asked in_asked
            (sym (is_some-last_prepared addr key reached) ∙ h)) in
        sym (
          ap is_some (
            last_prepared-prepares addr key txn_id order
            ∙ value_at-IsRange env ts txn_id txn c order addr key po))
        ∙ is_some-last_prepared addr key (prepares txn_id order)
        ∙ asked_for in
      let delivered =
        deliver_all-told wire (reached ++ arrived) cluster addr
          (All-append IsPlainMessage reached arrived
            (All-within IsPlainMessage reached (those is_prepare (log env ts txn_id txn c)) some_of
              (All-those IsPlainMessage is_prepare (log env ts txn_id txn c) plain))
            (All-within IsPlainMessage arrived (those is_abort (log env ts txn_id txn c)) same.0
              (All-those IsPlainMessage is_abort (log env ts txn_id txn c) plain)))
          w in
      subst
        (λ b. Unlocked txn_id key value (view (cluster addr)) b × (b.at ≡ (view (cluster addr)).at))
        (sym delivered)
        (told-aborted addr key txn_id (last_prepared addr key reached) reached arrived
          (view (cluster addr)) refl
          (All-within (IsPrepare txn_id) reached g.asked in_asked g.asked-IsPrepare) value names
          within
          (All-within (IsAbort txn_id) arrived aborts in_aborts.0
            (abort_messages-IsAbort c.router txn_id txn.writes)))
