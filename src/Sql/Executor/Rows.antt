-- ===== src/Sql/Executor/Rows.antt =====
-- The rows of a result with a key, and what an item of the store adds to them.
use shard_db.Base.{
  or_else, is_some, ℕ, ◌≡◌, refl, ap, ◌∙◌, Bool, true, false, Option, none, some, List, [], ◌∷◌,
  ◌++◌, ◌&&◌, leb, if◌then◌else◌, arith, append-nil,
}
use shard_db.Bytes.{Bytes, bytes_equal, codes}
use shard_db.Bytes.Order.{eq_of_equal}
use shard_db.Store.Items.{user_key, stamp}
use shard_db.Strings.{has_prefix}
use shard_db.Tree.{Item}
use shard_db.Sql.{Row}

-- The value of the first row with the key.
abbrev pub find_row : Bytes → List Row → Option Bytes
find_row key [] = none
find_row key ([] ∷ rows) = find_row key rows
find_row key ((j ∷ []) ∷ rows) = find_row key rows
find_row key ((j ∷ (v ∷ _)) ∷ rows) = if bytes_equal j key then some v else find_row key rows

-- The rows with the key, in order.
abbrev pub rows_of : Bytes → List Row → List Row
rows_of key [] = []
rows_of key ([] ∷ rows) = rows_of key rows
rows_of key ((j ∷ vs) ∷ rows) =
    let rest = rows_of key rows in if bytes_equal j key then (j ∷ vs) ∷ rest else rest

-- One row of the key and its value, or no row.
abbrev pub one_row : Bytes → Option Bytes → List Row
one_row key none = []
one_row key (some v) = (key ∷ v ∷ []) ∷ []

pub none_of_unmarked : (o : Option Bytes) → is_some o ≡ false → o ≡ none
none_of_unmarked none h = refl
none_of_unmarked (some b) h = ground arith

pub find_row-append :
    (key j v : Bytes) (rows : List Row)
    → find_row key (rows ++ (j ∷ v ∷ []) ∷ [])
      ≡ or_else (find_row key rows) (if bytes_equal j key then some v else none)
find_row-append key j v [] = refl
find_row-append key j v ([] ∷ rows) = find_row-append key j v rows
find_row-append key j v ((i ∷ []) ∷ rows) = find_row-append key j v rows
find_row-append key j v ((i ∷ (w ∷ ws)) ∷ rows) = ground (arith, find_row-append key j v rows)

rows_of-append :
    (key : Bytes) (rows new : List Row)
    → rows_of key (rows ++ new) ≡ rows_of key rows ++ rows_of key new
rows_of-append key [] new = refl
rows_of-append key ([] ∷ rows) new = rows_of-append key rows new
rows_of-append key ((j ∷ vs) ∷ rows) new = ground (arith, rows_of-append key rows new)

-- A row of the key behind rows without it, and a row of another key behind any rows.
pub one_row-append :
    (key j v : Bytes) (rows : List Row)
    → rows_of key rows ≡ []
    → bytes_equal j key ≡ true
    → rows_of key (rows ++ (j ∷ v ∷ []) ∷ []) ≡ one_row key (some v)
one_row-append key j v rows clear hit =
    ground (arith, rows_of-append key rows ((j ∷ v ∷ []) ∷ []), clear, hit, eq_of_equal j key hit)

pub other_row-append :
    (key j v : Bytes) (rows : List Row)
    → bytes_equal j key ≡ false
    → rows_of key (rows ++ (j ∷ v ∷ []) ∷ []) ≡ rows_of key rows
other_row-append key j v rows miss =
    rows_of-append key rows ((j ∷ v ∷ []) ∷ [])
    ∙ ap (λ (b : Bool). rows_of key rows ++ (if b then (j ∷ v ∷ []) ∷ [] else [])) miss
    ∙ append-nil (rows_of key rows)

-- A string with the prefix is the prefix and the rest.
pub has_prefix-rest : (s p : Bytes) → has_prefix s p ≡ true → (rest : Bytes) × (s ≡ p ++ rest)
unfolding has_prefix
has_prefix-rest s [] h = (s, refl)
has_prefix-rest [] (p ∷ ps) h = ground arith
has_prefix-rest (c ∷ cs) (p ∷ ps) h =
    let same : c ≡ p = ground arith in
    let (rest, e) = has_prefix-rest cs ps (ground arith) in (rest, ground (arith, same, e))

-- What the item adds for the key.
abbrev pub visible_item : Bytes → ℕ → Item → Option Bytes
visible_item key ts i =
    if bytes_equal (user_key i) key && leb (stamp i) ts then some i.value else none

-- The start of the keys of the table's rows.
abbrev pub table_prefix : Bytes → Bytes
table_prefix table = table ++ codes ":"
