-- ===== src/Sql/Executor/Range.antt =====
-- The range of items that executeScan walks, seen at one row key.
use shard_db.Base.{
  ℕ, ◌≡◌, refl, ap, ◌∙◌, Ordering, true, false, none, List, [], ◌∷◌, ◌++◌, All, ◌<◌, ◌-◌, arith,
  append_assoc, length, length-append,
}
use shard_db.Bytes.{Bytes, bytes_compare, bytes_ltb, bytes_equal, put_uint}
use shard_db.Bytes.Order.{eq_of_equal, compare-append_left, gt_of_lt, compare_refl}
use shard_db.Bytes.Endian.{length-put_uint}
use shard_db.Mvcc.{encode_key, max_uint64}
use shard_db.Store.Items.{IsVersion, user_key, stamp}
use shard_db.Tree.{Item, from, less}
use shard_db.Tree.Walk.{◌≺◌}
use shard_db.Sql.Executor.Visible.{visible, zeros, ltb-zeros, ltb-append_left, lt_extended}
use shard_db.Sql.Executor.Rows.{visible_item, table_prefix}

-- Where the scan of a table starts.
abbrev pub seek_start : Bytes → Item
seek_start table = record { key = encode_key (table_prefix table) max_uint64; value = [] }

-- The row key `first ∷ rest` of the table, whose first byte is not 255.
module _ (table : Bytes) (first : ℕ) (rest : Bytes) (low : first < 255) (ts : ℕ) where
  abbrev row : Bytes
  row = first ∷ rest

  abbrev whole : Bytes
  whole = table_prefix table ++ row

  abbrev end : Bytes
  end = table_prefix table ++ 255 ∷ []

  below_end : (s : Bytes) → bytes_compare (first ∷ (rest ++ s)) (255 ∷ []) ≡ Ordering.lt
  unfolding bytes_compare
  below_end s = ground arith

  compare-end : (s : Bytes) → bytes_compare (whole ++ s) end ≡ Ordering.lt
  compare-end s =
      ap (λ b. bytes_compare b end) (append_assoc (table_prefix table) row s)
      ∙ compare-append_left (table_prefix table) (first ∷ (rest ++ s)) (255 ∷ [])
      ∙ below_end s

  -- A version of the row is in front of an item at which the scan stops.
  stop_behind :
      (i j : Item)
      → IsVersion i
      → IsVersion j
      → bytes_ltb (user_key i) end ≡ false
      → bytes_equal (user_key j) whole ≡ true
      → bytes_compare j.key i.key ≡ Ordering.lt
  unfolding encode_key
  stop_behind i j v w stop same =
      let of_row : j.key ≡ whole ++ put_uint 8 (max_uint64 - stamp j) =
        w.0 ∙ ap (λ k. encode_key k (stamp j)) (eq_of_equal (user_key j) whole same) in
      ap (λ k. bytes_compare k i.key) of_row
      ∙ ap (λ k. bytes_compare (whole ++ put_uint 8 (max_uint64 - stamp j)) k) v.0
      ∙ lt_extended (whole ++ put_uint 8 (max_uint64 - stamp j)) end (user_key i)
          (put_uint 8 (max_uint64 - stamp i)) (compare-end (put_uint 8 (max_uint64 - stamp j))) stop

  pub none_behind :
      (i : Item) (is : List Item)
      → IsVersion i
      → bytes_ltb (user_key i) end ≡ false
      → All (λ j. i ≺ j) is
      → All IsVersion is
      → visible whole ts is ≡ none
  none_behind i [] v stop above vs = refl
  none_behind i (j ∷ js) v stop above vs = ground (
    arith,
    stop_behind i j v vs.0 stop,
    gt_of_lt i.key j.key above.0,
    none_behind i js v stop above.1 vs.1,
  )

  pub none_at :
      (i : Item) → IsVersion i → bytes_ltb (user_key i) end ≡ false → visible_item whole ts i ≡ none
  none_at i v stop = ground (arith, stop_behind i i v v stop, compare_refl i.key)

  at_start : (s : Bytes) → length s ≡ 8 → bytes_ltb (whole ++ s) (seek_start table).key ≡ false
  unfolding encode_key put_uint
  at_start s h =
      ap (λ b. bytes_ltb b (table_prefix table ++ zeros 8))
        (append_assoc (table_prefix table) row s)
      ∙ ltb-append_left (table_prefix table) (row ++ s) (zeros 8)
      ∙ ltb-zeros (row ++ s) 8 (ground (arith, length-append row s))

  not_in_front :
      (i : Item)
      → IsVersion i
      → bytes_equal (user_key i) whole ≡ true
      → less i (seek_start table) ≡ false
  unfolding less encode_key
  not_in_front i v same =
      ap (λ k. bytes_ltb k (seek_start table).key)
        (v.0 ∙ ap (λ k. encode_key k (stamp i)) (eq_of_equal (user_key i) whole same))
      ∙ at_start (put_uint 8 (max_uint64 - stamp i)) (length-put_uint 8 (max_uint64 - stamp i))

  -- Nothing of the row is in front of the start of the scan.
  none_in_front :
      (i : Item) → IsVersion i → less i (seek_start table) ≡ true → visible_item whole ts i ≡ none
  none_in_front i v front = ground (arith, not_in_front i v)

  pub visible-from :
      (is : List Item)
      → All IsVersion is
      → visible whole ts (from (seek_start table) is) ≡ visible whole ts is
  visible-from [] vs = refl
  visible-from (i ∷ is) vs = ground (arith, visible-from is vs.1, none_in_front i vs.0)
