-- ===== src/Sql/Executor/Table.antt =====
-- The scan of a table: which rows executeScan returns.
use mathlib.Core.Path.{ap₂, subst}
use shard_db.Base.{
  or_else, or_else_assoc, or_else-none, ℕ, ◌≡◌, refl, sym, ap, ◌∙◌, Bool, true, false, Option, none,
  some, List, [], ◌∷◌, ◌++◌, All, ◌<◌, arith, inl, inr, Bool-cases, append_assoc,
}
use shard_db.Base.Result.{ok}
use shard_db.Bytes.{Bytes, bytes_ltb, codes}
use shard_db.Dict
use shard_db.Store.{MemoryStore, scan, scan_visit}
use shard_db.Store.Items.{IsMvcc, IsVersion, user_key, latest, value_of}
use shard_db.Strings.Split.{Lacks}
use shard_db.Tree.{BTree, Item, walk, from}
use shard_db.Tree.Walk.{IsSorted}
use shard_db.Sql.{Row, PlanNode, project_node, filter_node, scan_node}
use shard_db.Sql.Executor.{ScanState, scan_row, execute_scan, Rows, row_key, rows_or_nil}
use shard_db.Sql.Executor.Visible.{visible, visible-latest, All-from, from-IsSorted}
use shard_db.Sql.Executor.Rows.{find_row, rows_of, one_row, visible_item, table_prefix}
use shard_db.Sql.Executor.Callback.{IsMarked, scan_row-Stepped}
use shard_db.Sql.Executor.Range.{seek_start, none_behind, none_at, visible-from}

-- The row key `first ∷ rest` of the table, whose first byte is not 255.
module _ (table : Bytes) (lacks : Lacks b':' table) (first : ℕ) (rest : Bytes) (low : first < 255)
    (ts : ℕ) where
  abbrev row : Bytes
  row = first ∷ rest

  abbrev whole : Bytes
  whole = table_prefix table ++ row

  abbrev end : Bytes
  end = table_prefix table ++ 255 ∷ []

  abbrev callback : Item → ScanState → ScanState × Bool
  callback = scan_visit (some end) (scan_row (table_prefix table) ts)

  callback-go :
      (i : Item) (st : ScanState)
      → bytes_ltb (user_key i) end ≡ true
      → callback i st ≡ scan_row (table_prefix table) ts i.key i.value st
  unfolding scan_visit
  callback-go i st go = ground arith

  callback-stop :
      (i : Item) (st : ScanState) → bytes_ltb (user_key i) end ≡ false → callback i st ≡ (st, false)
  unfolding scan_visit
  callback-stop i st stop = ground arith

  walk-stop :
      (i : Item) (is : List Item) (st : ScanState) (r : ScanState × Bool)
      → callback i st ≡ r
      → r.1 ≡ false
      → walk callback (i ∷ is) st ≡ r.0
  walk-stop i is st r e stop = ground arith

  walk-go :
      (i : Item) (is : List Item) (st : ScanState) (r : ScanState × Bool)
      → callback i st ≡ r
      → r.1 ≡ true
      → walk callback (i ∷ is) st ≡ walk callback is r.0
  walk-go i is st r e go = ground arith

  -- The rows at the end have the first visible version, if the row was not there before.
  walk-rows :
      (is : List Item) (st : ScanState)
      → IsMarked table lacks row st
      → IsSorted is
      → All IsVersion is
      → find_row row (walk callback is st).rows
        ≡ or_else (find_row row st.rows) (visible whole ts is)
  walk-rows [] st marked srt vs = sym (or_else-none (find_row row st.rows))
  walk-rows (i ∷ is) st marked srt vs = elim (Bool-cases (bytes_ltb (user_key i) end)) [
    | inr stop ↦
        ap (λ (s : ScanState). find_row row s.rows)
          (walk-stop i is st (st, false) (callback-stop i st stop) refl)
        ∙ sym (or_else-none (find_row row st.rows))
        ∙ ap (λ o. or_else (find_row row st.rows) o)
            (sym (
              ap₂ or_else (none_at table first rest low ts i vs.0 stop)
                (none_behind table first rest low ts i is vs.0 stop srt.0 vs.1)))
    | inl go ↦
        let r = scan_row (table_prefix table) ts i.key i.value st in
        let stepped = scan_row-Stepped table lacks row ts i st marked in
        ap (λ (s : ScanState). find_row row s.rows)
          (walk-go i is st r (callback-go i st go) stepped.0)
        ∙ walk-rows is r.0 stepped.1.0 srt.1 vs.1
        ∙ ap (λ o. or_else o (visible whole ts is)) stepped.1.1
        ∙ sym (or_else_assoc (find_row row st.rows) (visible_item whole ts i) (visible whole ts is))
  ]

  -- The row has one row at most at the end.
  walk-IsMarked :
      (is : List Item) (st : ScanState)
      → IsMarked table lacks row st
      → IsMarked table lacks row (walk callback is st)
  walk-IsMarked [] st marked = marked
  walk-IsMarked (i ∷ is) st marked = elim (Bool-cases (bytes_ltb (user_key i) end)) [
    | inr stop ↦
        subst (IsMarked table lacks row)
          (sym (walk-stop i is st (st, false) (callback-stop i st stop) refl)) marked
    | inl go ↦
        let r = scan_row (table_prefix table) ts i.key i.value st in
        let stepped = scan_row-Stepped table lacks row ts i st marked in
        subst (IsMarked table lacks row) (sym (walk-go i is st r (callback-go i st go) stepped.0))
          (walk-IsMarked is r.0 stepped.1.0)
  ]

  start_state : ScanState
  start_state = record { rows = []; seen_keys = [] }

  start-IsMarked : IsMarked table lacks row start_state
  unfolding start_state Dict.get
  start-IsMarked = (refl, refl)

  no_rows : find_row row start_state.rows ≡ none
  unfolding start_state
  no_rows = refl

  pub scan-rows :
      {B : BTree} (s : MemoryStore B)
      → IsMvcc (B.items s.tree)
      → (rows : List Row) × (execute_scan table s ts ≡ ok (rows_or_nil rows))
        × (rows_of row rows
            ≡ one_row row (value_of (latest (row_key table row) ts (B.items s.tree))))
  unfolding execute_scan scan start_state row_key
  scan-rows {B} s w =
      let items = from (seek_start table) (B.items s.tree) in
      (
        (walk callback items start_state).rows,
        ap (λ (st : ScanState). ok (rows_or_nil st.rows))
            (B.ascend_greater_or_equal_lem ScanState (seek_start table) callback s.tree
              start_state),
        (walk-IsMarked items start_state start-IsMarked).1
            ∙ ap (one_row row) (
                walk-rows items start_state start-IsMarked
                  (from-IsSorted (seek_start table) (B.items s.tree) w.sorted)
                  (All-from IsVersion (seek_start table) (B.items s.tree) w.versions)
                ∙ ap (λ o. or_else o (visible whole ts items)) no_rows
                ∙ visible-from table first rest low ts (B.items s.tree) w.versions
                ∙ visible-latest whole ts (B.items s.tree) w.sorted w.versions
                ∙ ap (λ k. value_of (latest k ts (B.items s.tree)))
                    (append_assoc table (codes ":") row)),
      )

-- The plan of SELECT without a point lookup, with its WHERE clause.
abbrev pub select_plan : Bytes → Option Bytes → List Bytes → PlanNode
select_plan table none columns = project_node (scan_node table) columns
select_plan table (some expr) columns = project_node (filter_node (scan_node table) expr) columns
