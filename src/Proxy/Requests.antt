-- ===== src/Proxy/Requests.antt =====
-- The requests of a transaction at cmd/proxy/main.go: BEGIN, INSERTs and COMMIT.
use mathlib.Core.Path.{ap₂, subst}
use shard_db.Base.{
  ℕ, ◌≡◌, refl, sym, ap, ◌∙◌, true, false, some, List, [], ◌∷◌, ◌++◌, All, map, arith, append_assoc,
  append-nil,
}
use shard_db.Base.Result.{ok, err}
use shard_db.Bytes.{Bytes, bytes_equal, codes}
use shard_db.Dict
use shard_db.Proxy.{Request, Response, text, http_error, commit_failed, Outside, handle_execute}
use shard_db.Proxy.Buffer.{
  IsStatement, write_of, handle_execute-insert, insert_branch, statement_branch,
}
use shard_db.Sql.{insert_node}
use shard_db.Sql.Parser.{SqlParser, parse_to_plan}
use shard_db.Strings.{to_upper, trim_space}
use shard_db.Txn.{Coordinator, Transaction, WriteIntent, Message, active, begin, commit_txn}

-- A request with the readings of the clock while it is handled.
pub record Sent : Type 0 where
  pub now : ℕ
  pub start : ℕ
  pub request : Request

-- The request of an INSERT, and the row that its text is parsed to.
pub record Insert : Type 0 where
  pub sent : Sent
  pub table : Bytes
  pub columns : List Bytes
  pub raw_key : Bytes
  pub val : Bytes
  pub more : List Bytes

-- The responses to the requests of a transaction, and the requests that were sent to the shards.
pub record Session : Type 0 where
  pub begun : Response
  pub buffered : List Response
  pub ended : Response
  pub log : List Message

abbrev pub insert_write : Insert → WriteIntent
insert_write i = write_of i.table i.raw_key i.val

abbrev pub command : Sent → Bytes
command s = to_upper (trim_space s.request.sql)

module _ {P : SqlParser} (o : Outside P) where
  abbrev pub handled : Sent → Coordinator → List Message → (Coordinator × List Message) × Response
  handled s c log = handle_execute o s.now s.start s.request c log

  -- The text is an INSERT of two values or more, with the transaction's id.
  abbrev pub IsInsert : Bytes → Insert → Type 0
  IsInsert txn_id i =
      (i.sent.request.txn ≡ txn_id)
      × IsStatement i.sent.request.sql
      × (parse_to_plan P o.parse i.sent.request.sql
          ≡ ok (insert_node i.table i.columns (i.raw_key ∷ i.val ∷ i.more)))

  abbrev pub inserted :
      List Insert → Coordinator → List Message → (Coordinator × List Message) × List Response
  inserted [] c log = ((c, log), [])
  inserted (i ∷ is) c log =
      let ((c', log'), response) = handled i.sent c log in
      let (after, responses) = inserted is c' log' in (after, response ∷ responses)

  -- A client that begins a transaction, inserts rows, one after the other, and commits.
  abbrev pub session : Sent → List Insert → Sent → Coordinator → Session
  session first is last c =
      let ((c1, log1), begun) = handled first c [] in
      let ((c2, log2), buffered) = inserted is c1 log1 in
      let ((c3, log3), ended) = handled last c2 log2 in
      record { begun = begun; buffered = buffered; ended = ended; log = log3 }

  pub begin_branch :
      (s : Sent) (c : Coordinator) (log : List Message)
      → bytes_equal (command s) (codes "BEGIN") ≡ true
      → handled s c log
        ≡ (((begin s.now s.start c).0, log), text (codes "TxnID:" ++ (begin s.now s.start c).1))
  unfolding handle_execute
  begin_branch s c log is_begin = ground arith

  -- What the handler makes of a COMMIT.
  abbrev pub answered :
      ℕ → Coordinator → Bytes → List Message → (Coordinator × List Message) × Response
  answered now c txn_id log =
      let (after, result) = commit_txn o.network now txn_id c log in
      (
        after,
        elim result [ err e ↦ http_error (commit_failed e) 500 | ok _ ↦ text (codes "COMMIT OK") ],
      )

  pub commit_branch :
      (s : Sent) (c : Coordinator) (log : List Message)
      → bytes_equal (command s) (codes "BEGIN") ≡ false
      → bytes_equal (command s) (codes "COMMIT") ≡ true
      → bytes_equal s.request.txn [] ≡ false
      → handled s c log ≡ answered s.now c s.request.txn log
  unfolding handle_execute
  commit_branch s c log no_begin committing inside = ground arith

  -- An INSERT buffers its write, and the router stays.
  abbrev Buffers : Insert → Coordinator → List Message → Bytes → Transaction → Type 0
  Buffers i c log txn_id txn =
      let ((c', log'), response) = handled i.sent c log in
      (response ≡ text (codes "Buffered Write OK"))
      × (log' ≡ log)
      × (Dict.get txn_id c'.transactions
          ≡ some (record txn { writes = txn.writes ++ insert_write i ∷ [] }))
      × (c'.router ≡ c.router)

  handled-insert :
      (i : Insert) (c : Coordinator) (log : List Message) (txn_id : Bytes) (txn : Transaction)
      → IsInsert txn_id i
      → bytes_equal txn_id [] ≡ false
      → Dict.get txn_id c.transactions ≡ some txn
      → txn.state ≡ active
      → Buffers i c log txn_id txn
  handled-insert i c log txn_id txn h =
      subst
        (λ id.
          bytes_equal id [] ≡ false
          → Dict.get id c.transactions ≡ some txn
          → txn.state ≡ active
          → Buffers i c log id txn)
        h.0
        (λ inside known is_active.
          let r = i.sent.request in
          let plan = insert_node i.table i.columns (i.raw_key ∷ i.val ∷ i.more) in
          let (response, same, wrote) =
            handle_execute-insert o i.sent.now i.sent.start r c log i.table i.raw_key i.val
              i.columns i.more txn h.1 h.2 inside known is_active in
          (
            response,
            same,
            wrote,
            ap (λ x. x.0.0.router) (statement_branch o i.sent.now i.sent.start r c log plan h.1 h.2)
                ∙ ap (λ x. x.0.router)
                    (insert_branch o i.sent.now i.sent.start r c log i.table i.raw_key i.val
                      i.columns i.more txn inside known is_active),
          ))

  -- The responses and the transaction after any number of them.
  pub inserted-Buffers :
      (is : List Insert) (c : Coordinator) (log : List Message) (txn_id : Bytes) (txn : Transaction)
      → All (IsInsert txn_id) is
      → bytes_equal txn_id [] ≡ false
      → Dict.get txn_id c.transactions ≡ some txn
      → txn.state ≡ active
      → let ((c', log'), responses) = inserted is c log in
        (responses ≡ map (λ i. text (codes "Buffered Write OK")) is)
        × (log' ≡ log)
        × (Dict.get txn_id c'.transactions
            ≡ some (record txn { writes = txn.writes ++ map insert_write is }))
        × (c'.router ≡ c.router)
  inserted-Buffers [] c log txn_id txn h inside known is_active = (
    refl,
    refl,
    known ∙ ap (λ ws. some (record txn { writes = ws })) (sym (append-nil txn.writes)),
    refl,
  )
  inserted-Buffers (i ∷ is) c log txn_id txn h inside known is_active =
      let (response, same, wrote, router) =
        handled-insert i c log txn_id txn h.0 inside known is_active in
      let ((c', log'), _) = handled i.sent c log in
      let (responses, same', wrote', router') =
        inserted-Buffers is c' log' txn_id
          (record txn { writes = txn.writes ++ insert_write i ∷ [] }) h.1 inside wrote is_active in
      (
        ap₂ (λ (a : Response) (b : List Response). a ∷ b) response responses,
        same' ∙ same,
        wrote'
            ∙ ap (λ ws. some (record txn { writes = ws }))
                (append_assoc txn.writes (insert_write i ∷ []) (map insert_write is)),
        router' ∙ router,
      )
