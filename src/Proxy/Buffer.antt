-- ===== src/Proxy/Buffer.antt =====
-- INSERT inside a transaction.
use shard_db.Base.{ℕ, ◌≡◌, ap, ◌∙◌, false, some, List, [], ◌∷◌, ◌++◌, arith, if◌then◌else◌}
use shard_db.Base.Result.{ok}
use shard_db.Bytes.{Bytes, bytes_equal, codes}
use shard_db.Bytes.Order.{equal_refl}
use shard_db.Dict
use shard_db.Sql.{PlanNode, insert_node}
use shard_db.Sql.Executor.{row_key}
use shard_db.Sql.Parser.{SqlParser, parse_to_plan}
use shard_db.Txn.{Coordinator, Transaction, WriteIntent, Message, active, add_write}
use shard_db.Proxy.{Request, text, Outside, handle_execute, execute_plan}
use shard_db.Strings.{to_upper, trim_space}

abbrev pub write_of : Bytes → Bytes → Bytes → WriteIntent
write_of table raw_key val = record { key = row_key table raw_key; value = val }

-- The text is none of the three commands of transactions.
abbrev pub IsStatement : Bytes → Type 0
IsStatement sql =
    (bytes_equal (to_upper (trim_space sql)) (codes "BEGIN") ≡ false)
    × (bytes_equal (to_upper (trim_space sql)) (codes "COMMIT") ≡ false)
    × (bytes_equal (to_upper (trim_space sql)) (codes "ROLLBACK") ≡ false)

add_write-active :
    (txn_id key value : Bytes) (txn : Transaction) (c : Coordinator)
    → Dict.get txn_id c.transactions ≡ some txn
    → txn.state ≡ active
    → add_write txn_id key value c ≡ (
      record c {
        transactions =
            Dict.put txn_id
              (record txn { writes = txn.writes ++ record { key = key; value = value } ∷ [] })
              c.transactions;
      },
      ok tt,
    )
unfolding add_write
add_write-active txn_id key value txn c known is_active = ground arith

module _ {P : SqlParser} (o : Outside P) (now start : ℕ) (r : Request) (c : Coordinator)
    (log : List Message) where
  abbrev after_write : Transaction → WriteIntent → Coordinator
  after_write txn w = record c {
    transactions = Dict.put r.txn (record txn { writes = txn.writes ++ w ∷ [] }) c.transactions;
  }

  pub statement_branch :
      (plan : PlanNode)
      → IsStatement r.sql
      → parse_to_plan P o.parse r.sql ≡ ok plan
      → handle_execute o now start r c log
        ≡ (((execute_plan o plan r c).0, log), (execute_plan o plan r c).1)
  unfolding handle_execute
  statement_branch plan s parsed = ground (arith, s.0, s.1, s.2, parsed)

  pub insert_branch :
      (table raw_key val : Bytes) (columns more : List Bytes) (txn : Transaction)
      → bytes_equal r.txn [] ≡ false
      → Dict.get r.txn c.transactions ≡ some txn
      → txn.state ≡ active
      → execute_plan o (insert_node table columns (raw_key ∷ val ∷ more)) r c
        ≡ (after_write txn (write_of table raw_key val), text (codes "Buffered Write OK"))
  unfolding execute_plan row_key
  insert_branch table raw_key val columns more txn inside known is_active =
      ground (arith, add_write-active r.txn (row_key table raw_key) val txn c known is_active)

  -- An INSERT of two values or more, with the id of an active transaction, sends nothing, and answers
  -- with a text: the transaction has one write more, behind the others, whose key is the table and
  -- the first value with a colon between them and whose value is the second value. The other values
  -- are lost, and nothing else of the transaction changes.
  pub handle_execute-insert :
      (table raw_key val : Bytes) (columns more : List Bytes) (txn : Transaction)
      → IsStatement r.sql
      → parse_to_plan P o.parse r.sql ≡ ok (insert_node table columns (raw_key ∷ val ∷ more))
      → bytes_equal r.txn [] ≡ false
      → Dict.get r.txn c.transactions ≡ some txn
      → txn.state ≡ active
      → let ((c', log'), response) = handle_execute o now start r c log in
        (response ≡ text (codes "Buffered Write OK"))
        × (log' ≡ log)
        × (Dict.get r.txn c'.transactions
            ≡ some (record txn { writes = txn.writes ++ write_of table raw_key val ∷ [] }))
  handle_execute-insert table raw_key val columns more txn s parsed inside known is_active =
      let plan = insert_node table columns (raw_key ∷ val ∷ more) in
      let e = insert_branch table raw_key val columns more txn inside known is_active in
      let h = statement_branch plan s parsed in
      let written = record txn { writes = txn.writes ++ write_of table raw_key val ∷ [] } in
      (
        ap (λ x. x.1) h ∙ ap (λ x. x.1) e,
        ap (λ x. x.0.1) h,
        ap (λ x. Dict.get r.txn x.0.0.transactions) h
            ∙ ap (λ x. Dict.get r.txn x.0.transactions) e
            ∙ Dict.get-put r.txn r.txn written c.transactions
            ∙ ap (λ b. if b then some written else Dict.get r.txn c.transactions)
                (equal_refl r.txn),
      )
