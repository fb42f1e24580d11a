-- ===== src/Proxy/Session.antt =====
-- A transaction through cmd/proxy/main.go, from its BEGIN to its COMMIT, and the store of the shard that
-- gets it. The router is that of NewRouter, whose ranges nothing changes.
use mathlib.Core.Path.{ap₂, subst}
use shard_db.Base.{
  ℕ, ◌≡◌, refl, sym, ap, ◌∙◌, true, false, some, List, [], ◌∷◌, ◌++◌, All, map, arith,
  if◌then◌else◌, ◌<◌, ◌^◌, append-nil, append_assoc,
}
use shard_db.Bytes.{Bytes, bytes_equal, codes}
use shard_db.Bytes.Order.{equal_refl}
use shard_db.Cluster.{Cluster, Wire, deliver_all, oneshot_ops}
use shard_db.Cluster.OnePhase.{AllOrNothing, commit_txn-AllOrNothing}
use shard_db.Decimal.{format_decimal}
use shard_db.Dict
use shard_db.Dict.{Dict}
use shard_db.Proxy.{text, Outside}
use shard_db.Router.{Router, new_router, locate}
use shard_db.Router
use shard_db.Shard.{Req}
use shard_db.Sql.Parser.{SqlParser}
use shard_db.Store.Abstract.View.{view}
use shard_db.Store.Items.{IsMvcc}
use shard_db.Tree.{BTree}
use shard_db.Txn.{
  Coordinator, Transaction, WriteIntent, Message, oneshot, active, begin, commit_txn,
  group_by_shard,
}
use shard_db.Proxy.Requests.{
  Sent, Insert, insert_write, command, handled, IsInsert, inserted, session, begin_branch, answered,
  commit_branch, inserted-Buffers,
}

-- The address of the shard 1, which has all keys.
abbrev pub shard_one : Bytes
shard_one = codes "http://localhost:9001"

locate-new_router : (meta_url key : Bytes) → locate key (new_router meta_url) ≡ shard_one
unfolding locate new_router Router.get_shard_id Router.scan_ranges Router.contains Router.shard_addr
locate-new_router meta_url key = refl

put_again :
    (addr : Bytes) (old new : List WriteIntent)
    → Dict.put addr new ((addr, old) ∷ []) ≡ (addr, new) ∷ []
unfolding Dict.put
put_again addr old new = ground (arith, equal_refl addr)

-- Writes on one address join its group.
group_on :
    (r : Router) (addr : Bytes)
    → ((key : Bytes) → locate key r ≡ addr)
    → (ws g : List WriteIntent) → group_by_shard r ws ((addr, g) ∷ []) ≡ (addr, g ++ ws) ∷ []
unfolding group_by_shard Dict.get
group_on r addr all [] g = ap (λ ws. (addr, ws) ∷ []) (sym (append-nil g))
group_on r addr all (w ∷ ws) g = ground (
  arith,
  all w.key,
  equal_refl addr,
  put_again addr g (g ++ w ∷ []),
  group_on r addr all ws (g ++ w ∷ []),
  append_assoc g (w ∷ []) ws,
)

group_by_shard-new_router :
    (meta_url : Bytes) (w : WriteIntent) (ws : List WriteIntent)
    → group_by_shard (new_router meta_url) (w ∷ ws) [] ≡ (shard_one, w ∷ ws) ∷ []
unfolding group_by_shard Dict.get Dict.put
group_by_shard-new_router meta_url w ws =
    let all = locate-new_router meta_url in
    ap (λ addr. group_by_shard (new_router meta_url) ws ((addr, w ∷ []) ∷ [])) (all w.key)
    ∙ group_on (new_router meta_url) shard_one all ws (w ∷ [])

module _ {P : SqlParser} (o : Outside P) {B : BTree} (wire : Wire) (cluster : Cluster B)
    (meta_url key : Bytes) where
  -- What a client and the store of the shard 1 see of a COMMIT, whose log is then `log`.
  abbrev Ended : Bytes → ℕ → List WriteIntent → List Message → Type 0
  Ended txn_id ts writes log =
      (log ≡ oneshot shard_one writes txn_id ts ∷ [])
      × AllOrNothing txn_id ts key writes (view (cluster shard_one))
          (view (deliver_all wire log cluster shard_one))

  commit-Ended :
      (s : Sent) (c : Coordinator) (log : List Message) (txn_id : Bytes) (txn : Transaction)
      (w : WriteIntent) (ws : List WriteIntent)
      → bytes_equal (command s) (codes "BEGIN") ≡ false
      → bytes_equal (command s) (codes "COMMIT") ≡ true
      → bytes_equal txn_id [] ≡ false
      → s.request.txn ≡ txn_id
      → log ≡ []
      → c.router ≡ new_router meta_url
      → Dict.get txn_id c.transactions ≡ some txn
      → txn.state ≡ active
      → txn.writes ≡ w ∷ ws
      → o.network.responds [] (oneshot shard_one (w ∷ ws) txn_id s.now) ≡ true
      → (let body : Req = record { txn_id = txn_id; ts = s.now; ops = oneshot_ops (w ∷ ws) } in
          wire.parsers.unmarshal (wire.marshal body) ≡ body)
      → s.now < 2 ^ 64
      → IsMvcc (B.items (cluster shard_one).tree)
      → ((handled o s c log).1 ≡ text (codes "COMMIT OK"))
        × Ended txn_id s.now (w ∷ ws) (handled o s c log).0.1
  commit-Ended s c log txn_id txn w ws no_begin committing inside named empty router known is_active
        has accepted json fits mvcc =
      let branch : handled o s c log ≡ answered o s.now c txn_id [] =
        commit_branch o s c log no_begin committing
          (subst (λ id. bytes_equal id [] ≡ false) (sym named) inside)
        ∙ ap₂ (λ (id : Bytes) (l : List Message). answered o s.now c id l) named empty in
      let one : group_by_shard c.router txn.writes [] ≡ (shard_one, w ∷ ws) ∷ [] =
        ap₂ (λ (r : Router) (l : List WriteIntent). group_by_shard r l []) router has
        ∙ group_by_shard-new_router meta_url w ws in
      let (success, sent, stored) =
        commit_txn-AllOrNothing wire cluster shard_one o.network s.now txn_id txn w ws c (w ∷ ws)
          key known is_active has one accepted json fits mvcc in
      let logs : (handled o s c log).0.1 ≡ (commit_txn o.network s.now txn_id c []).0.1 =
        ap (λ x. x.0.1) branch in
      (
        ap (λ x. x.1) branch ∙ ground (arith, success),
        subst (Ended txn_id s.now (w ∷ ws)) (sym logs) (sent, stored),
      )

  -- A proxy that has the router of NewRouter, with whatever transactions: a client begins a
  -- transaction, inserts one row or more, each of two values or more, with the id that it gets, one
  -- after the other, and commits with this id, and the shard's answer to the oneshot request has
  -- status 200. Every request is answered with success, and this request, with all writes, is the
  -- only one that is sent; the key of a row is the table and its first value with a colon between
  -- them, and its value is the second value alone. If JSON keeps the body of the request, then once
  -- the well-formed store of the shard has applied it: where another transaction holds one of the
  -- keys, no key has other versions or another lock than before, though the client was told COMMIT
  -- OK; else every key that is written has, at the commit's timestamp, the last value that is
  -- written to it, and no lock, and other keys are as before.
  pub session-AllOrNothing :
      (first last : Sent) (i : Insert) (is : List Insert) (c : Coordinator)
      → let txn_id = codes "txn-" ++ format_decimal first.now in
        let writes = map insert_write (i ∷ is) in
        let body : Req = record { txn_id = txn_id; ts = last.now; ops = oneshot_ops writes } in
        c.router ≡ new_router meta_url
        → bytes_equal (command first) (codes "BEGIN") ≡ true
        → All (IsInsert o txn_id) (i ∷ is)
        → bytes_equal (command last) (codes "BEGIN") ≡ false
        → bytes_equal (command last) (codes "COMMIT") ≡ true
        → last.request.txn ≡ txn_id
        → o.network.responds [] (oneshot shard_one writes txn_id last.now) ≡ true
        → wire.parsers.unmarshal (wire.marshal body) ≡ body
        → last.now < 2 ^ 64
        → IsMvcc (B.items (cluster shard_one).tree)
        → let ran = session o first (i ∷ is) last c in
          (ran.begun ≡ text (codes "TxnID:" ++ txn_id))
          × (ran.buffered ≡ map (λ _. text (codes "Buffered Write OK")) (i ∷ is))
          × (ran.ended ≡ text (codes "COMMIT OK"))
          × (ran.log ≡ oneshot shard_one writes txn_id last.now ∷ [])
          × AllOrNothing txn_id last.now key writes
              (view (cluster shard_one))
              (view (deliver_all wire ran.log cluster shard_one))
  unfolding begin bytes_equal
  session-AllOrNothing first last i is c shipped beginning inserts no_begin committing named
        accepted json fits mvcc =
      let txn_id = codes "txn-" ++ format_decimal first.now in
      let fresh : Transaction = record {
        id = txn_id;
        state = active;
        start_time = first.start;
        writes = [];
      } in
      let branch = begin_branch o first c [] beginning in
      let ((c1, log1), _) = handled o first c [] in
      let known =
        ap (λ x. Dict.get txn_id x.0.0.transactions) branch
        ∙ Dict.get-put txn_id txn_id fresh c.transactions
        ∙ ap (λ b. if b then some fresh else Dict.get txn_id c.transactions) (equal_refl txn_id) in
      let (responses, silent, wrote, router) =
        inserted-Buffers o (i ∷ is) c1 log1 txn_id fresh inserts refl known refl in
      let ((c2, log2), _) = inserted o (i ∷ is) c1 log1 in
      let (success, ended) =
        commit-Ended last c2 log2 txn_id (record fresh { writes = map insert_write (i ∷ is) })
          (insert_write i) (map insert_write is) no_begin committing refl named
          (silent ∙ ap (λ x. x.0.1) branch) (router ∙ ap (λ x. x.0.0.router) branch ∙ shipped) wrote
          refl refl accepted json fits mvcc in
      (ap (λ x. x.1) branch, responses, success, ended.0, ended.1)
