-- ===== src/Meta.antt =====
-- internal/meta/store.go: the ranges of the key space with the shards that own them, and the shards'
-- addresses.
pub mod Tiles
pub mod Splice
pub mod Snapshot
use shard_db.Base.{
  ℕ, zero, suc, ◌+◌, ◌-◌, ◌≡◌, Ordering, Bool, true, false, not, ◌&&◌, Option, none, some, List, [],
  ◌∷◌, ◌++◌, length, get_elem?, drop, ltb, ◌==◌, if◌then◌else◌,
}
use shard_db.Base.Result.{Result, ok, err}
use shard_db.Bytes.{Bytes, bytes_compare, bytes_ltb, bytes_equal, codes}
use shard_db.Sort.{search, test}

-- Range; a nil bound is `none`.
pub record Range : Type 0 where
  pub start_key : Option Bytes
  pub end_key : Option Bytes
  pub shard_id : ℕ

pub record ShardConfig : Type 0 where
  pub id : ℕ
  pub addrs : List Bytes

pub record MetaStore : Type 0 where
  pub ranges : List Range
  pub shards : List (ℕ × ShardConfig)

-- the Command of Apply
pub record Command : Type 0 where
  pub op : Bytes
  pub range : Range
  pub shard : ShardConfig
  pub split_key : Option Bytes
  pub shard_id1 : ℕ
  pub shard_id2 : ℕ

-- NewMetaStore
unfoldable pub new_meta_store : MetaStore
new_meta_store = record {
  ranges = record { start_key = none; end_key = none; shard_id = 1 } ∷ [];
  shards = [];
}

-- A nil slice compares as the empty one.
abbrev pub or_empty : Option Bytes → Bytes
or_empty none = []
or_empty (some b) = b

-- The callbacks of sort.Search: the range's start key is behind the key.
unfoldable pub starts_after : Bytes → Range → Bool
starts_after key r = elim r.start_key [ none ↦ false | some start ↦ bytes_ltb key start ]

-- the index of the first range that starts behind the key
unfoldable pub search_ranges : Bytes → List Range → ℕ
search_ranges key ranges =
    search (length ranges) (λ i. test (starts_after key) (get_elem? ranges i))

-- `none` is a panic: an index out of range.
abbrev pub Checked {ℓ} : Type ℓ → Type ℓ
Checked A = Option A

-- GetShard
unfoldable pub get_shard : Bytes → MetaStore → Checked ℕ
get_shard key s =
    let idx = search_ranges key s.ranges in
    if idx == 0
    then elim (get_elem? s.ranges 0) [
      | none ↦ none
      | some r ↦ elim r.start_key [ none ↦ some r.shard_id | some _ ↦ some 0 ]
    ]
    else elim (get_elem? s.ranges (idx - 1)) [ none ↦ none | some r ↦ some r.shard_id ]

-- `s.Shards[id] = shard`
unfoldable pub put_shard : ℕ → ShardConfig → List (ℕ × ShardConfig) → List (ℕ × ShardConfig)
put_shard id c [] = (id, c) ∷ []
put_shard id c ((j, d) ∷ rest) = if j == id then (id, c) ∷ rest else (j, d) ∷ put_shard id c rest

-- `ranges[i] = r`
unfoldable pub assign : List Range → ℕ → Range → List Range
assign [] i r = []
assign (x ∷ xs) zero r = r ∷ xs
assign (x ∷ xs) (suc i) r = x ∷ assign xs i r

-- `copy(dst[i:], src)`
unfoldable pub copy : List Range → ℕ → List Range → List Range
copy [] i src = []
copy (x ∷ xs) zero [] = x ∷ xs
copy (x ∷ xs) zero (y ∷ ys) = y ∷ copy xs zero ys
copy (x ∷ xs) (suc i) src = x ∷ copy xs i src

-- the insertion at the end of SPLIT_RANGE
unfoldable pub replace_by_two : List Range → ℕ → Range → Range → List Range
unfolding assign copy
replace_by_two ranges target_idx r1 r2 =
    let a = assign ranges target_idx r1 in
    let b = a ++ record { start_key = none; end_key = none; shard_id = 0 } ∷ [] in
    let c = copy b (target_idx + 2) (drop (target_idx + 1) b) in assign c (target_idx + 1) r2

-- SPLIT_RANGE on the target: rejected outside the open interval of its bounds
unfoldable pub split_target : Command → List Range → ℕ → Range → List Range
split_target cmd ranges target_idx target =
    let key = or_empty cmd.split_key in
    let start_ok : Bool = elim target.start_key [
      | none ↦ true
      | some start ↦ bytes_ltb start key
    ] in
    let end_ok : Bool = elim target.end_key [ none ↦ true | some end ↦ bytes_ltb key end ] in
    if not start_ok
    then ranges
    else if not end_ok
    then ranges
    else replace_by_two ranges target_idx
        (record { start_key = target.start_key; end_key = cmd.split_key; shard_id = cmd.shard_id1 })
        (record { start_key = cmd.split_key; end_key = target.end_key; shard_id = cmd.shard_id2 })

-- the case SPLIT_RANGE of Apply
unfoldable pub split_range : Command → List Range → Checked (List Range)
split_range cmd ranges =
    let idx = search_ranges (or_empty cmd.split_key) ranges in
    let target_idx = (if ltb 0 idx then idx - 1 else 0) in
    elim (get_elem? ranges target_idx) [
      | none ↦ none
      | some target ↦ some (split_target cmd ranges target_idx target)
    ]

-- Apply, from the decoded command on
unfoldable pub apply_command : Command → MetaStore → Checked MetaStore
apply_command cmd s =
    if bytes_equal cmd.op (codes "REGISTER_SHARD")
    then some (record s { shards = put_shard cmd.shard.id cmd.shard s.shards })
    else if bytes_equal cmd.op (codes "UPDATE_RANGE")
    then some s
    else if bytes_equal cmd.op (codes "SPLIT_RANGE")
    then elim (split_range cmd s.ranges) [
      | none ↦ none
      | some ranges ↦ some (record s { ranges = ranges })
    ]
    else some s

-- Apply. `unmarshal` is json.Unmarshal into a Command; `none` is its error, which is printed.
unfoldable pub apply : (Bytes → Option Command) → Bytes → MetaStore → Checked MetaStore
apply unmarshal entry s = elim (unmarshal entry) [ none ↦ some s | some cmd ↦ apply_command cmd s ]
