-- ===== src/Sql/Executor/Callback.antt =====
-- The callback of executeScan, seen at one row key.
use mathlib.Core.Path.{subst}
use shard_db.Base.{
  or_else, is_some, ℕ, ◌≡◌, refl, sym, ap, ◌∙◌, Bool, true, false, none, some, [], ◌∷◌, ◌++◌, leb,
  if◌then◌else◌, arith, inl, inr, ◌⊎◌, Bool-cases, append_assoc,
}
use shard_db.Bytes.{Bytes, bytes_equal, codes}
use shard_db.Bytes.Order.{eq_of_equal, compare-append_left}
use shard_db.Dict
use shard_db.Dict.{Dict}
use shard_db.Store.Items.{user_key, stamp}
use shard_db.Strings.{has_prefix, split_two}
use shard_db.Strings.Split.{Lacks, split_two-field, has_prefix-append}
use shard_db.Tree.{Item}
use shard_db.Sql.Executor.{ScanState, scan_row, real_key, is_set}
use shard_db.Sql.Executor.Rows.{
  find_row, rows_of, one_row, visible_item, table_prefix, none_of_unmarked, find_row-append,
  one_row-append, other_row-append, has_prefix-rest,
}

module _ (table : Bytes) (lacks : Lacks b':' table) where
  abbrev prefix : Bytes
  prefix = table_prefix table

  real_key-row : (rest : Bytes) → real_key (prefix ++ rest) ≡ rest
  unfolding real_key
  real_key-row rest =
      let e : prefix ++ rest ≡ table ++ b':' ∷ rest = append_assoc table (codes ":") rest in
      ground (arith, ap (λ (k : Bytes). split_two k b':') e, split_two-field table rest b':' lacks)

  equal-prefix : (a b : Bytes) → bytes_equal (prefix ++ a) (prefix ++ b) ≡ bytes_equal a b
  unfolding bytes_equal
  equal-prefix a b = ground (arith, compare-append_left prefix a b)

  -- The row key is marked as seen exactly when it has a row, and it has one row at most.
  abbrev pub IsMarked : Bytes → ScanState → Type 0
  IsMarked r st =
      (is_set (Dict.get (prefix ++ r) st.seen_keys) ≡ is_some (find_row r st.rows))
      × (rows_of r st.rows ≡ one_row r (find_row r st.rows))

  -- What one call of the callback does to the row key.
  abbrev pub Step : Bytes → ℕ → Item → ScanState → ScanState → Type 0
  Step r ts i st st' =
      IsMarked r st'
      × (find_row r st'.rows ≡ or_else (find_row r st.rows) (visible_item (prefix ++ r) ts i))

  unchanged :
      (r : Bytes) (ts : ℕ) (i : Item) (st : ScanState)
      → IsMarked r st
      → (visible_item (prefix ++ r) ts i ≡ none) ⊎ (is_some (find_row r st.rows) ≡ true)
      → Step r ts i st st
  unchanged r ts i st marked (inl e) = (marked, ground (arith, e))
  unchanged r ts i st marked (inr e) = (marked, ground (arith, e))

  appended :
      (r rest : Bytes) (ts : ℕ) (i : Item) (st : ScanState)
      → IsMarked r st
      → user_key i ≡ prefix ++ rest
      → is_set (Dict.get (user_key i) st.seen_keys) ≡ false
      → leb (stamp i) ts ≡ true
      → Step r ts i st (record {
        rows = st.rows ++ (rest ∷ i.value ∷ []) ∷ [];
        seen_keys = Dict.put (user_key i) true st.seen_keys;
      })
  appended r rest ts i st marked e unseen old =
      let same = equal-prefix rest r in
      let found = find_row-append r rest i.value st.rows in
      let put = Dict.get-put (user_key i) (prefix ++ r) true st.seen_keys in
      elim (Bool-cases (bytes_equal (user_key i) (prefix ++ r))) [
        | inl this ↦
            let hit : bytes_equal rest r ≡ true =
              sym same ∙ ap (λ k. bytes_equal k (prefix ++ r)) (sym e) ∙ this in
            let unmarked : is_set (Dict.get (prefix ++ r) st.seen_keys) ≡ false =
              ap (λ k. is_set (Dict.get k st.seen_keys))
                (sym (eq_of_equal (user_key i) (prefix ++ r) this))
              ∙ unseen in
            let clear : find_row r st.rows ≡ none =
              none_of_unmarked (find_row r st.rows) (sym marked.0 ∙ unmarked) in
            let row : find_row r (st.rows ++ (rest ∷ i.value ∷ []) ∷ []) ≡ some i.value =
              ground (arith, found, hit, clear) in
            (
              (
                ap is_set put
                    ∙ ap
                        (λ b. is_set (if b then some true else Dict.get (prefix ++ r) st.seen_keys))
                        this
                    ∙ sym (ap is_some row),
                one_row-append r rest i.value st.rows (marked.1 ∙ ap (one_row r) clear) hit
                    ∙ sym (ap (one_row r) row),
              ),
              row ∙ ground (arith, clear, this, old),
            )
        | inr other ↦
            let miss : bytes_equal rest r ≡ false =
              sym same ∙ ap (λ k. bytes_equal k (prefix ++ r)) (sym e) ∙ other in
            let row : find_row r (st.rows ++ (rest ∷ i.value ∷ []) ∷ []) ≡ find_row r st.rows =
              ground (arith, found, miss) in
            (
              (
                ap is_set put
                    ∙ ap
                        (λ b. is_set (if b then some true else Dict.get (prefix ++ r) st.seen_keys))
                        other
                    ∙ marked.0
                    ∙ sym (ap is_some row),
                other_row-append r rest i.value st.rows miss ∙ marked.1 ∙ sym (ap (one_row r) row),
              ),
              row ∙ ground (arith, other),
            )
      ]

  abbrev pub Stepped : Bytes → ℕ → Item → ScanState → ScanState × Bool → Type 0
  Stepped r ts i st res = (res.1 ≡ true) × Step r ts i st res.0

  -- The callback at an item without the prefix, of a key that has a row, at a new row, and at an
  -- item that is too new.
  scan_row-skip :
      (ts : ℕ) (i : Item) (st : ScanState)
      → has_prefix (user_key i) prefix ≡ false
      → scan_row prefix ts i.key i.value st ≡ (st, true)
  unfolding scan_row
  scan_row-skip ts i st h = ground arith

  scan_row-seen :
      (ts : ℕ) (i : Item) (st : ScanState)
      → has_prefix (user_key i) prefix ≡ true
      → is_set (Dict.get (user_key i) st.seen_keys) ≡ true
      → scan_row prefix ts i.key i.value st ≡ (st, true)
  unfolding scan_row
  scan_row-seen ts i st h seen = ground arith

  scan_row-old :
      (ts : ℕ) (i : Item) (st : ScanState) (rest : Bytes)
      → has_prefix (user_key i) prefix ≡ true
      → is_set (Dict.get (user_key i) st.seen_keys) ≡ false
      → leb (stamp i) ts ≡ true
      → user_key i ≡ prefix ++ rest
      → scan_row prefix ts i.key i.value st ≡ (
        record {
          rows = st.rows ++ (rest ∷ i.value ∷ []) ∷ [];
          seen_keys = Dict.put (user_key i) true st.seen_keys;
        },
        true,
      )
  unfolding scan_row
  scan_row-old ts i st rest h unseen old e =
      let real : real_key (user_key i) ≡ rest = ap real_key e ∙ real_key-row rest in ground arith

  scan_row-new :
      (ts : ℕ) (i : Item) (st : ScanState)
      → has_prefix (user_key i) prefix ≡ true
      → is_set (Dict.get (user_key i) st.seen_keys) ≡ false
      → leb (stamp i) ts ≡ false
      → scan_row prefix ts i.key i.value st ≡ (st, true)
  unfolding scan_row
  scan_row-new ts i st h unseen new = ground arith

  seen_or_other :
      (r : Bytes) (ts : ℕ) (i : Item) (st : ScanState)
      → IsMarked r st
      → is_set (Dict.get (user_key i) st.seen_keys) ≡ true
      → (visible_item (prefix ++ r) ts i ≡ none) ⊎ (is_some (find_row r st.rows) ≡ true)
  seen_or_other r ts i st marked seen = elim (Bool-cases (bytes_equal (user_key i) (prefix ++ r))) [
    | inl this ↦ inr (
        sym marked.0
        ∙ ap (λ k. is_set (Dict.get k st.seen_keys))
            (sym (eq_of_equal (user_key i) (prefix ++ r) this))
        ∙ seen)
    | inr other ↦ inl (ground arith)
  ]

  none_without_prefix :
      (r : Bytes) (ts : ℕ) (i : Item)
      → has_prefix (user_key i) prefix ≡ false
      → visible_item (prefix ++ r) ts i ≡ none
  none_without_prefix r ts i h =
      ground (arith, eq_of_equal (user_key i) (prefix ++ r), has_prefix-append prefix r)

  -- One call of the callback goes on, and gives the row key what the item adds for it.
  pub scan_row-Stepped :
      (r : Bytes) (ts : ℕ) (i : Item) (st : ScanState)
      → IsMarked r st
      → Stepped r ts i st (scan_row prefix ts i.key i.value st)
  scan_row-Stepped r ts i st marked =
      let kept : (visible_item (prefix ++ r) ts i ≡ none) ⊎ (is_some (find_row r st.rows) ≡ true)
          → scan_row prefix ts i.key i.value st ≡ (st, true)
          → Stepped r ts i st (scan_row prefix ts i.key i.value st) =
        λ why e. subst (Stepped r ts i st) (sym e) (refl, unchanged r ts i st marked why) in
      elim (Bool-cases (has_prefix (user_key i) prefix)) [
        | inr skip ↦ kept (inl (none_without_prefix r ts i skip)) (scan_row-skip ts i st skip)
        | inl has ↦ elim (Bool-cases (is_set (Dict.get (user_key i) st.seen_keys))) [
          | inl seen ↦ kept (seen_or_other r ts i st marked seen) (scan_row-seen ts i st has seen)
          | inr unseen ↦ elim (Bool-cases (leb (stamp i) ts)) [
            | inr new ↦ kept (inl (ground arith)) (scan_row-new ts i st has unseen new)
            | inl old ↦
                let (rest, e) = has_prefix-rest (user_key i) prefix has in
                subst (Stepped r ts i st) (sym (scan_row-old ts i st rest has unseen old e))
                  (refl, appended r rest ts i st marked e unseen old)
          ]
        ]
      ]
